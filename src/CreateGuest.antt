-- ===== src/CreateGuest.antt =====
-- `createGuest` of internal/app/journey/guest_journey.go, and the test of the booking between two of the
-- journey's flows.
use kenshu_elaris_project_gu.Prelude.{
  List, Option, [], get_elem?, if◌then◌else◌, none, some, ℕ, ◌++◌, ◌==◌, ◌∷◌,
}
use kenshu_elaris_project_gu.Cache.{load}
use kenshu_elaris_project_gu.Domain.{Guest}
use kenshu_elaris_project_gu.GoText.{Text, is_empty, text}
use kenshu_elaris_project_gu.JourneyCache.{initialize_state_cache}
use kenshu_elaris_project_gu.Wiring.{Wiring}
use kenshu_elaris_project_gu.World.{
  Action, Env, expect, get_state, no_booking_id, reject_if, set_state, ◌>>=◌, ◌>>◌,
}

-- What `gofakeit` makes up.
pub record Fake : Type 0 where
  pub name : Text
  pub ssn : Text
  pub address : Text

abbrev put_first : ℕ → List Text → List Text
put_first c [] = (c ∷ []) ∷ []
put_first c (word ∷ words) = (c ∷ word) ∷ words

-- `strings.Split(s, " ")`
unfoldable pub split_blanks : Text → List Text
split_blanks [] = [] ∷ []
split_blanks (c ∷ s) = let rest = split_blanks s in if c == 32 then [] ∷ rest else put_first c rest

-- `len(name) > i && name[i] != ""`, or else the default
abbrev pub word_or : Text → Option Text → Text
word_or default none = default
word_or default (some w) = if is_empty w then default else w

-- The guest that a fake makes.
unfoldable pub fake_guest : Fake → Guest
fake_guest fake =
    let words = split_blanks fake.name in
    let given = word_or (text "Guest") (get_elem? words 0) in
    let surname = word_or (text "Simulator") (get_elem? words 1) in
    record {
      document_id = fake.ssn;
      given_names = given;
      surname = surname;
      email = given ++ (text "." ++ (surname ++ text "@test.com"));
      billing_address = fake.address;
    }

module _ {P : Type 0} (env : Env P) where
  -- `createGuest`; `lower` is `strings.ToLower`.
  unfoldable pub create_guest : (Text → Text) → Fake → Wiring → Action P (Unit {0})
  create_guest lower fake d = do
    s ← get_state
    set_state (record s {
      guest = some (fake_guest fake);
      redis_key = text "guest.pending." ++ lower (fake_guest fake).document_id;
    })
    initialize_state_cache env d

  -- `Start` between the booking flow and the wait for a payment: the cache has a booking id.
  unfoldable pub validate_booking : Action P (Unit {0})
  validate_booking = do
    value ← load env
    b ← expect value.booking no_booking_id
    reject_if (is_empty b.booking_id) no_booking_id
