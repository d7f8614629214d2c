-- ===== src/Broker/Session.antt =====
-- What a session can let out of the wallet, over any sequence of requests.
use presign.Prelude.{ℕ, ◌≤◌, ◌≡◌, List, [], ◌∷◌, All, arith}
use presign.Broker.{Broker, SignRequest, Run, sign_through_verdict, assessed, record_call, filled}
use presign.Broker.Stages.{read_fields-spent}

-- One request never takes the session past the policy's ceiling.
sign_through_verdict-spent :
    (b : Broker) (req : SignRequest) (s : Run)
    → s.spent ≤ b.policy.max_eth_per_session
    → (sign_through_verdict b req s).1.spent ≤ b.policy.max_eth_per_session
unfolding sign_through_verdict
sign_through_verdict-spent b req s h =
    read_fields-spent b (assessed b req) (record_call filled s) (b.fill (assessed b req)) h

-- Requests handled one after another, each in the world as it then is.
unfoldable pub serve : List (Broker × SignRequest) → Run → Run
unfolding sign_through_verdict
serve [] s = s
serve ((b, req) ∷ rest) s = serve rest (sign_through_verdict b req s).1

-- Over any sequence of requests handled one after another under one session ceiling, from a session
-- within it, and whatever the verdicts, the device and the chain answer, the ETH charged to the
-- session never passes the ceiling.
pub serve-spent :
    (ceiling : ℕ) (requests : List (Broker × SignRequest)) (s : Run)
    → All (λ x. x.0.policy.max_eth_per_session ≡ ceiling) requests
    → s.spent ≤ ceiling
    → (serve requests s).spent ≤ ceiling
unfolding serve
serve-spent ceiling [] s same h = h
serve-spent ceiling ((b, req) ∷ rest) s same h =
    serve-spent ceiling rest (sign_through_verdict b req s).1 same.1
      (omega (arith, same.0, h, sign_through_verdict-spent b req s (omega (arith, same.0, h))))
