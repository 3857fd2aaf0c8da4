-- ===== src/Waypoints/Session/Tests.antt =====
-- Runs of the sessions on concrete data.
use confluxmap_pumpkin.Base.{
  ◌≤◌, ◌≡◌, refl, arith, true, false, List, [], ◌∷◌, leb, length, if◌then◌else◌,
}
use confluxmap_pumpkin.Base.Int.{ℤ, pos, ◌≤ℤ◌}
use confluxmap_pumpkin.Float.Arithmetic
use confluxmap_pumpkin.Identity.{Uid, id_eq}
use confluxmap_pumpkin.Waypoints.Session
use confluxmap_pumpkin.Waypoints.Session.{
  Session, Sessions, TokenBucket, new_session, new_bucket, try_consume, record_malformed, hello,
  effective_minor,
}
use confluxmap_pumpkin.Waypoints.Session.Access.{
  opened, malformed, Lived-effective_minor, hello-cap,
}

abbrev one_strike : Session
one_strike = (record_malformed (new_session (pos 0))).1

abbrev three_strikes : Session
three_strikes = (record_malformed (record_malformed one_strike).1).1

Lived-effective_minor_example :
    (three_strikes.muted ≡ leb 3 3)
    × (pos 0 ≤ℤ effective_minor three_strikes)
    × (effective_minor three_strikes ≤ℤ pos (if leb 3 3 then 0 else 3))
Lived-effective_minor_example =
    Lived-effective_minor (malformed (malformed (malformed (opened (pos 0)))))

abbrev player : Uid
player = record { high = 1; low = 2 }

hello-cap_example : length (hello player (pos 1) (pos 3) false (pos 0) []).1 ≤ 2048
hello-cap_example = hello-cap player (pos 1) (pos 3) false (pos 0) [] (ground arith)

-- The bucket of three tokens, and one a second, that the source's own test runs.
abbrev bucket : TokenBucket
bucket = new_bucket (Arithmetic.of_nat 3) (Arithmetic.of_nat 60) (pos 0)

abbrev after : List ℤ → TokenBucket → TokenBucket
after [] b = b
after (now ∷ later) b = after later (try_consume b now).1

abbrev spent : TokenBucket
spent = after (pos 0 ∷ pos 0 ∷ pos 0 ∷ []) bucket

bucket_run :
    ((try_consume (after (pos 0 ∷ pos 0 ∷ []) bucket) (pos 0)).0 ≡ true)
    × ((try_consume spent (pos 0)).0 ≡ false)
    × ((try_consume spent (pos 500)).0 ≡ false)
    × ((try_consume (try_consume spent (pos 500)).1 (pos 1000)).0 ≡ true)
unfolding try_consume Session.refill new_bucket Arithmetic.less Arithmetic.lesser Arithmetic.of_nat
    Arithmetic.add Arithmetic.sub Arithmetic.mul Arithmetic.div
bucket_run = (refl, refl, refl, refl)
