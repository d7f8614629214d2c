-- ===== src/Incidents/Tests.antt =====
-- A feed that loads one address, and then fails.
use presign.Prelude.{◌≡◌, refl, true, false, [], ◌∷◌, string_eq, lower}
use presign.Types.{value}
use presign.JsMap.{add}
use presign.Incidents.{
  Response, new_feed, array, string_entry, other_entry, refresh, read_answer, read_body,
  read_entries, is_address,
}
use presign.Incidents.Refreshes.{refreshes, last_list, Holds, refreshes-Holds}

abbrev good : Response
good = record {
  ok = true;
  status_code = 200;
  json =
      value (array (other_entry ∷ string_entry "0xAAaaaaaaaaaaaaaaaaaaaaaaaaaaaaaaaaaaaaaa" ∷ []));
}

abbrev bad : Response
bad = record good { ok = false; status_code = 503 }

kept :
    (refreshes ((1, value good) ∷ (2, value bad) ∷ []) new_feed).addresses
    ≡ "0xaaaaaaaaaaaaaaaaaaaaaaaaaaaaaaaaaaaaaaaa" ∷ []
unfolding refreshes refresh read_answer read_body read_entries is_address lower add
kept = refl

refreshes-Holds_example :
    Holds
      (refreshes ((1, value good) ∷ (2, value bad) ∷ []) new_feed)
      (last_list ((1, value good) ∷ (2, value bad) ∷ []))
      new_feed
refreshes-Holds_example = refreshes-Holds ((1, value good) ∷ (2, value bad) ∷ []) new_feed
