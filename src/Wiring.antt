-- ===== src/Wiring.antt =====
-- Which of the pointers that the steps were built with are set. Each step's `Validate` tests some.
use kenshu_elaris_project_gu.Prelude.{Bool}

pub record Wiring : Type 0 where
  pub state_set : Bool
  pub cache_set : Bool
  pub client_set : Bool
  pub factory_set : Bool
  pub notification_set : Bool
