-- ===== src/Signing/CallExamples.antt =====
-- Calls on a contract one after the other, and the theorems at them.
use event_pro_backend.Prelude.{
  ◌≡◌, refl, ◌+◌, ◌≤◌, false, some, List, [], ◌∷◌, codes, arith, has_text,
}
use event_pro_backend.Method.{ok}
use event_pro_backend.Clock.{minutes, aware}
use event_pro_backend.Contract.{Contract, contract, blank_contract, issued}
use event_pro_backend.Signing.Rules.{Claims, proof_claims, check_proof, otp_is_dead}
use event_pro_backend.Signing.Protocol.{Call, render, link, ask, guess, run, asked, is_missed}
use event_pro_backend.Signing.Attempts.{misses, misses_bounded}
use event_pro_backend.Signing.Pace.{Spaced, IsRare}
use event_pro_backend.Signing.Spacing.{accepted, accepted-Spaced}
use event_pro_backend.Signing.Phases.{Move, guessing, coded, drafted, view}
use event_pro_backend.Signing.Refinement.{run-Move}
use event_pro_backend.Signing.Loading.{run-contract}
use event_pro_backend.Signing.Journey.{asked-proof}
use event_pro_backend.Signing.Examples.{cfg, token, sha, waiting, crypto, proof}

-- Without a code yet; the requests of codes and answers that follow, the newest first.
abbrev offered : Contract
offered = record (blank_contract 7 (codes "CTR-2026-0001") 3 false 0) {
  status = issued;
  pdf_storage_path = some (codes "c.pdf");
  signature_token_hash = some (sha token);
}

abbrev calls : List Call
calls =
    guess 61000000 (codes "000000") ∷ ask 60000000 (codes "654321") ∷ ask 0 (codes "123456") ∷ []

abbrev miscall : Call
miscall = guess 61000000 (codes "000000")

-- The contract is rendered, has a link and a code.
abbrev prepared : List Call
prepared =
    ask 60000000 (codes "654321")
    ∷ link (sha token) (aware 5000000000)
    ∷ render (codes "c.pdf")
    ∷ []

misses_bounded_example : misses cfg crypto calls offered ≤ 5
misses_bounded_example = misses_bounded cfg crypto calls offered refl

one_miss : misses cfg crypto calls offered ≡ 1
unfolding misses
one_miss = refl

accepted-Spaced_example :
    Spaced (accepted cfg crypto calls offered) × IsRare (accepted cfg crypto calls offered)
accepted-Spaced_example = accepted-Spaced cfg crypto calls offered refl refl

-- The first window is the minutes 0 to 10, and the next one begins at minute 10: five codes between the
-- minutes 8 and 13.
abbrev five : List Call
five =
    ask (minutes 12) (codes "6")
    ∷ ask (minutes 11) (codes "5")
    ∷ ask (minutes 10) (codes "4")
    ∷ ask (minutes 9) (codes "3")
    ∷ ask (minutes 8) (codes "2")
    ∷ ask 0 (codes "1")
    ∷ []

five_in_ten_minutes :
    accepted cfg crypto five offered
    ≡ minutes 12 ∷ minutes 11 ∷ minutes 10 ∷ minutes 9 ∷ minutes 8 ∷ 0 ∷ []
unfolding accepted
five_in_ten_minutes = refl

-- The wrong code after the two requests.
run-Move_example :
    let new = blank_contract 7 (codes "CTR-2026-0001") 3 false 0 in
    (view new ≡ drafted)
    × Move 5 guessing
        (view (run cfg crypto prepared new))
        (view (run cfg crypto (miscall ∷ prepared) new))
run-Move_example = run-Move cfg crypto prepared miscall 7 3 0 (codes "CTR-2026-0001") false

-- It is counted.
counted_once :
    let new = blank_contract 7 (codes "CTR-2026-0001") 3 false 0 in
    (view (run cfg crypto prepared new) ≡ coded 0)
    × (view (run cfg crypto (miscall ∷ prepared) new) ≡ coded 1)
unfolding run
counted_once = (refl, refl)

run-contract_example :
    let k = run cfg crypto calls (blank_contract 7 (codes "CTR-2026-0001") 3 false 0) in
    contract k ≡ ok k
unfolding has_text
run-contract_example =
    run-contract cfg crypto (λ t. refl) calls 7 3 0 (codes "CTR-2026-0001") false refl refl

-- The contract for which the code was sent at instant 100.
abbrev fresh : Contract
fresh = record waiting { otp_expires_at = some (100 + minutes 10) }

asked_at_100 :
    asked cfg crypto 100
      (codes "123456")
      (record offered { signature_token_expires_at = some 5000 })
    ≡ ok fresh
unfolding asked
asked_at_100 = refl

asked-proof_example :
    (is_missed cfg crypto 900 (codes "123456") fresh ≡ false)
    × (otp_is_dead 900 fresh ≡ false)
    × (check_proof cfg crypto 1001 proof fresh ≡ ok (proof_claims cfg 900 5000 fresh))
    × ((other : Contract) (read : Claims)
        → check_proof cfg crypto 1001 proof other ≡ ok read
        → (other.signature_token_hash ≡ fresh.signature_token_hash)
          × (other.otp_hash ≡ fresh.otp_hash))
asked-proof_example =
    asked-proof cfg crypto 100 900 1001 5000 (codes "123456")
      (record offered { signature_token_expires_at = some 5000 }) fresh (λ id link at n code. refl)
      (omega arith) asked_at_100 (omega arith) refl
