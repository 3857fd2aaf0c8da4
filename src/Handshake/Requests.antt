-- ===== src/Handshake/Requests.antt =====
-- What the handshake makes of the requests for map patches, which come on the same channel.
use confluxmap_pumpkin.Base.{
  ℕ, ◌+◌, ◌≤◌, ◌≡◌, refl, ap, ◌∙◌, Bool, true, false, none, some, List, [], arith, leb, min,
  if◌then◌else◌, not, ◌&&◌, Bool-cases, inl, inr,
}
use confluxmap_pumpkin.Base.Maps
use confluxmap_pumpkin.Base.Maps.{Map, beq_refl}
use confluxmap_pumpkin.Wire.Reader
use confluxmap_pumpkin.Waypoints.Model.{str_eq}
use confluxmap_pumpkin.Correction.Patch.{MapViewReq}
use confluxmap_pumpkin.Correction.Patch.Frames.{view_frame}
use confluxmap_pumpkin.Protocol.{Str, parse_hello_c2s}
use confluxmap_pumpkin.State.{State, is_player_muted, strikes_of, count_of, record_malformed_strike}
use confluxmap_pumpkin.Handshake.Handle.{Call, send_failed, refuse, handle_payload}
use confluxmap_pumpkin.Handshake.Sessions.{IsSound, handle_payload-IsSound}

view_frame-hello : (m : MapViewReq) → parse_hello_c2s (view_frame m) ≡ none
unfolding parse_hello_c2s view_frame Reader.u8 Reader.byte_at
view_frame-hello m = refl

strikes_after :
    (b : Bool) (name : Str) (s : State) (muted : Map Str (Unit {0}))
    → strikes_of name (if b then record s { muted = muted } else s) ≡ strikes_of name s
unfolding strikes_of
strikes_after true name s muted = refl
strikes_after false name s muted = refl

struck :
    (name : Str) (s : State)
    → strikes_of name (record_malformed_strike name s).1 ≡ min (strikes_of name s + 1) 255
unfolding record_malformed_strike strikes_of
struck name s =
    let n = min (strikes_of name s + 1) 255 in
    let s' = record s { strikes = Maps.insert name n s.strikes } in
    let looked : Maps.lookup name (Maps.insert name n s.strikes) ≡ some n =
      rw (Maps.lookup-insert name name n s.strikes, beq_refl name) in
    strikes_after (leb 3 n && not (is_player_muted name s)) name s' (Maps.insert name tt s.muted)
    ∙ ap count_of looked

-- The state after a request.
abbrev pub asked : Call → MapViewReq → State → State
asked call m s = (handle_payload call (view_frame m) s).state

muted_payload :
    (call : Call) (bytes : List ℕ) (s : State)
    → is_player_muted call.player_name s ≡ true
    → handle_payload call bytes s
      ≡ record { outcome = send_failed call.muted_text; sent = []; state = s }
unfolding handle_payload
muted_payload call bytes s on = rw on

struck_request :
    (call : Call) (m : MapViewReq) (s : State)
    → is_player_muted call.player_name s ≡ false
    → asked call m s ≡ (record_malformed_strike call.player_name s).1
unfolding handle_payload refuse
struck_request call m s off = rw (asked, off, view_frame-hello m)

asked-strikes :
    (call : Call) (m : MapViewReq) (s : State) (n : ℕ)
    → IsSound s
    → n ≤ 2
    → n ≤ strikes_of call.player_name s
    → n + 1 ≤ strikes_of call.player_name (asked call m s)
asked-strikes call m s n h few before =
    let name = call.player_name in
    elim (Bool-cases (is_player_muted name s)) [
      | inl on ↦ omega (
        arith,
        (h.tracked name).0 on,
        ap (λ r. strikes_of name r.state) (muted_payload call (view_frame m) s on),
      )
      | inr off ↦ omega (arith, ap (strikes_of name) (struck_request call m s off), struck name s)
    ]

-- From a sound state, three requests for map patches mute the player who sends them, whatever they
-- ask for: a fourth one then changes nothing and is not answered.
pub requests-muted :
    (call : Call) (a b c d : MapViewReq) (s : State)
    → IsSound s
    → (is_player_muted call.player_name (asked call c (asked call b (asked call a s))) ≡ true)
      × (handle_payload call (view_frame d) (asked call c (asked call b (asked call a s)))
          ≡ record {
            outcome = send_failed call.muted_text;
            sent = [];
            state = asked call c (asked call b (asked call a s));
          })
requests-muted call a b c d s h =
    let s1 = asked call a s in
    let s2 = asked call b s1 in
    let s3 = asked call c s2 in
    let h1 = handle_payload-IsSound call (view_frame a) s h in
    let h2 = handle_payload-IsSound call (view_frame b) s1 h1 in
    let h3 = handle_payload-IsSound call (view_frame c) s2 h2 in
    let one = asked-strikes call a s 0 h (omega arith) (omega arith) in
    let two = asked-strikes call b s1 1 h1 (omega arith) one in
    let three = asked-strikes call c s2 2 h2 (omega arith) two in
    let muted = (h3.tracked call.player_name).1 three in
    (muted, muted_payload call (view_frame d) s3 muted)
