-- ===== src/Witness/Data.antt =====
-- The inputs of the tests: a guest, a journey's world, and services that answer.
use kenshu_elaris_project_gu.Prelude.{[], false, none, some, true, ℕ, ◌*◌, ◌+◌, ◌∷◌}
use kenshu_elaris_project_gu.Domain.{Guest, GuestJourneyCacheValue, Period}
use kenshu_elaris_project_gu.GoFloat.{float_0_40}
use kenshu_elaris_project_gu.GoText.{Text, text}
use kenshu_elaris_project_gu.GoTime.{Instant, day_ns, hour_ns}
use kenshu_elaris_project_gu.PayInvoice.{succeeded}
use kenshu_elaris_project_gu.Wiring.{Wiring}
use kenshu_elaris_project_gu.World.{Env, World, body, done}

abbrev pub ada : Guest
ada = record {
  document_id = text "123-45-6789";
  given_names = text "Ada";
  surname = text "King";
  email = text "Ada.King@test.com";
  billing_address = text "1 Main St";
}

-- Midday of the hundredth day.
abbrev pub noon : Instant
noon = 100 * day_ns + 12 * hour_ns

abbrev pub days : ℕ → ℕ → Period
days a b = record { start = a * day_ns; end = b * day_ns }

abbrev pub stay_days : Period
stay_days = days 106 109

abbrev pub unbooked_value : GuestJourneyCacheValue
unbooked_value = record {
  guest_id = text "g1";
  personal_info = some ada;
  booking = some (record {
    booking_id = [];
    selected_cottage = text "Pine";
    selected_period = some stay_days;
  });
  invoice = none;
}

abbrev pub invoiced_value : GuestJourneyCacheValue
invoiced_value = record {
  guest_id = text "g1";
  personal_info = some ada;
  booking = some (record {
    booking_id = text "b1";
    selected_cottage = text "Pine";
    selected_period = some stay_days;
  });
  invoice = some (record { invoice_number = text "INV-1"; receipt_number = [] });
}

-- Redis keeps the values themselves, and every service answers.
abbrev pub services : Env GuestJourneyCacheValue
services = record {
  redis_client = true;
  redis = λ _. done;
  http_client_set = true;
  clock_set = true;
  marshal = λ v. some v;
  unmarshal = λ p. some p;
  now = λ _. some noon;
  random = λ n. n;
  rand_float = λ _. float_0_40;
  canceled = λ _. false;
  guest_id_of = λ _ _. body (text "g1");
  retrieved = λ _ _. body tt;
  cottages = λ _. body (record { name = text "Pine" } ∷ []);
  available = λ _ name _ _. body (record {
    name = name;
    periods = record { check_in = 106 * day_ns; check_out = 110 * day_ns } ∷ [];
  });
  booked = λ _ _ _. body (record { id = text "b1" });
  paid = λ _ number _.
      body (record { receipt_number = text "R-1"; invoice_number = number; status = succeeded });
}

abbrev pub guest_key : Text
guest_key = text "guest.g1"

abbrev pub world_with : GuestJourneyCacheValue → World GuestJourneyCacheValue
world_with v = record {
  calls = 0;
  state = record {
    guest = some ada;
    guest_id = text "g1";
    cottage_names = some (text "Pine" ∷ []);
    redis_key = guest_key;
    queue_name = [];
    routing_key = [];
  };
  store = (guest_key, v) ∷ [];
  sent = [];
}

abbrev pub all_set : Wiring
all_set = record {
  state_set = true;
  cache_set = true;
  client_set = true;
  factory_set = true;
  notification_set = true;
}
