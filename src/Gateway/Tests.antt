-- ===== src/Gateway/Tests.antt =====
-- A gateway that answers with data, and one that answers 200 with an error.
use presign.Prelude.{ℕ, ◌≡◌, ◌↔◌, Option, refl, String, true, false, some, none, List, []}
use presign.Types.{Settled, value}
use presign.Funding.Tests.{decoders}
use presign.Gateway.{GatewayClient, Response, body, query, answered, is_deployment_id}
use presign.Gateway.Queries.{Holds, query_iff}
use presign.Gateway.Liveness.{Meta, IsOf, check, report_of, check_report, read_block}

abbrev response : Response ℕ
response = record {
  status = 200;
  ok = true;
  payment_required = none;
  json = value (body none (some 7));
}

abbrev client : GatewayClient ℕ
client = record {
  url = λ base deployment. deployment;
  headers = value [];
  fetch = λ url headers. value response;
  base_url = "https://gateway.thegraph.com/api";
}

query_iff_example : (query decoders client "Qm12" ≡ answered 7) ↔ (
    (headers : List (String × String)) × (r : Response ℕ) × (client.headers ≡ value headers)
    × (is_deployment_id "Qm12" ≡ true)
    × (value response ≡ value r)
    × Holds r 7)
query_iff_example = query_iff decoders client "Qm12" 7

abbrev meta : Meta
meta = record {
  block = some (record { number = some 90; timestamp = some 1000 });
  has_indexing_errors = some false;
}

checked :
    check "Qm1" (value (some meta)) (value 95) 1004499
    ≡ value (report_of "Qm1" (some false) 95 90 1000 1004499)
unfolding check read_block
checked = refl

check_report_example :
    (m : Option Meta) × (value (some meta) ≡ value m)
    × (◌≡◌ {A = Settled ℕ} (value 95) (value 95))
    × IsOf m 1004499 (report_of "Qm1" (some false) 95 90 1000 1004499)
unfolding report_of
check_report_example =
    check_report "Qm1" (value (some meta)) (value 95) 1004499
      (report_of "Qm1" (some false) 95 90 1000 1004499) checked
