-- ===== src/Domain/Provider.antt =====
-- packages/schemas/src/domain.ts and packages/domain/src: a provider of a service.
use koven.Prelude.{ℕ, String}

-- `ProviderSchema`. Nothing here computes with the reputation: it is kept as its JSON text.
pub record Provider : Type 0 where
  pub id : String
  pub account_id : String
  pub endpoint : String
  pub capability : String
  pub price_tinybar : ℕ
  pub reputation_score : String
  pub expected_latency_ms : ℕ
