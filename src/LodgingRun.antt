-- ===== src/LodgingRun.antt =====
-- `RunLodgingStayFlow` of internal/app/flows/lodging_flow.go: the lodging step alone, in a graph whose only
-- entry is nil.
use kenshu_elaris_project_gu.Prelude.{Bool, if◌then◌else◌, suc}
use kenshu_elaris_project_gu.GoText.{Text}
use kenshu_elaris_project_gu.Lodging.Chat.{Chat}
use kenshu_elaris_project_gu.Lodging.Enter.{validate}
use kenshu_elaris_project_gu.Lodging.Plan.{LodgingFlow}
use kenshu_elaris_project_gu.Lodging.Stay.{execute}
use kenshu_elaris_project_gu.Wiring.{Wiring}
use kenshu_elaris_project_gu.World.{Env, Outcome, World, err, lodging_step_is_nil, ok, panics}

-- What the flow was built with: whether it and its step are set, the address of the chat, the
-- itinerary, whether the chat can be dialed, and the id that the key is returned with.
pub record LodgingStay : Type 0 where
  pub step_set : Bool
  pub chat_url : Text
  pub itinerary : LodgingFlow
  pub dialed : Bool
  pub key_id : Text

abbrev pub Stayed : Type 0 → Type 0
Stayed P = (Outcome (Unit {0}) × Chat) × World P

module _ {P : Type 0} where
  -- `Execute` behind `Validate`
  abbrev pub validated : Outcome (Unit {0}) × World P → Chat → (World P → Stayed P) → Stayed P
  validated (ok u, w) c more = more w
  validated (err e, w) c more = ((err e, c), w)
  validated (panics, w) c more = ((panics, c), w)

module _ {P : Type 0} (env : Env P) where
  -- `runStepGraph` at the lodging step, behind which the graph ends.
  unfoldable pub run_lodging_graph : Wiring → LodgingStay → World P → Chat → Stayed P
  run_lodging_graph d stay w c =
      let w1 : World P = record w { calls = suc w.calls } in
      if env.canceled w.calls
      then ((ok tt, c), w1)
      else validated (validate d stay.chat_url stay.itinerary w1) c
          (λ w2. execute env stay.dialed stay.itinerary stay.key_id w2 c)

  -- `RunLodgingStayFlow`
  unfoldable pub run_lodging_stay_flow : Wiring → LodgingStay → World P → Chat → Stayed P
  run_lodging_stay_flow d stay w c =
      if stay.step_set then run_lodging_graph d stay w c else ((err lodging_step_is_nil, c), w)
