-- ===== src/Providers.antt =====
-- `ProviderName` of src/ace_service/providers/base.py.
use audio_ventura.Base.{ℕ, ◌≡◌, ◌↔◌, true, arith, Eq, nat_beq, String}

pub data ProviderName : Type 0 where
  runpod salad fal mock node : ProviderName

abbrev pub provider_index : ProviderName → ℕ
provider_index runpod = 0
provider_index salad = 1
provider_index fal = 2
provider_index mock = 3
provider_index node = 4

pub provider_index_iff :
    (a b : ProviderName) → (nat_beq (provider_index a) (provider_index b) ≡ true) ↔ (a ≡ b)
provider_index_iff a b = (λ h. ground arith, λ h. ground arith)

instance abbrev pub provider_eq : Eq ProviderName
provider_eq = record {
  same = λ a b. nat_beq (provider_index a) (provider_index b);
  same_iff = provider_index_iff;
}

-- `ProviderName.value`
abbrev pub provider_value : ProviderName → String
provider_value runpod = "runpod"
provider_value salad = "salad"
provider_value fal = "fal"
provider_value mock = "mock"
provider_value node = "node"
