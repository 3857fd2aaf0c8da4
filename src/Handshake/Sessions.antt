-- ===== src/Handshake/Sessions.antt =====
-- What holds of the state of the map channel after any sequence of events.
use mathlib.Core.Path.{subst}
use confluxmap_pumpkin.Base.{
  ℕ, ◌+◌, ◌%◌, ◌^◌, ◌≤◌, ◌≡◌, ◌↔◌, refl, ap, Bool, true, false, not, ◌&&◌, Option, none, List, [],
  ◌∷◌, arith, leb, if◌then◌else◌, length, length-append, min, Bool-cases, Option-cases, inl, inr,
}
use confluxmap_pumpkin.Base.Maps
use confluxmap_pumpkin.Base.Maps.{Map, Eq, beq, beq_refl}
use confluxmap_pumpkin.Waypoints.Model.{str_eq}
use confluxmap_pumpkin.Protocol.{Str, Hello, parse_hello_c2s}
use confluxmap_pumpkin.Config.{Config}
use confluxmap_pumpkin.State.{
  State, Names, initial, push_bounded, note_channel, seen_among, count_policy_sent,
  count_send_failure, remember_handshake, set_config, clean_player_session, is_player_muted,
  count_of, strikes_of, record_malformed_strike, set_radar_subscriber,
}
use confluxmap_pumpkin.Handshake.{Reply, build_reply}
use confluxmap_pumpkin.Handshake.Handle.{
  Call, Handled, replied, send_failed, refuse, conclude, answer, handle_payload,
}

-- A muted player is one with three strikes or more.
abbrev IsTracked : Map Str ℕ → Names → Type 0
IsTracked strikes muted =
    (name : Str) → (Maps.contains_key name muted ≡ true) ↔ (3 ≤ count_of (Maps.lookup name strikes))

contains_key-insert :
    (k j : Str) (m : Names)
    → Maps.contains_key j (Maps.insert k tt m) ≡ (if beq k j then true else Maps.contains_key j m)
contains_key-insert k j m =
    rw
      (
        Maps.contains_key-lookup j (Maps.insert k tt m),
        Maps.contains_key-lookup j m,
        Maps.lookup-insert k j tt m,
      )
      (ground arith)

contains_key-remove :
    (k j : Str) (m : Names)
    → Maps.contains_key j (Maps.remove k m) ≡ (if beq k j then false else Maps.contains_key j m)
contains_key-remove k j m =
    rw
      (
        Maps.contains_key-lookup j (Maps.remove k m),
        Maps.contains_key-lookup j m,
        Maps.lookup-remove k j m,
      )
      (ground arith)

removed_iff :
    (b m : Bool) (o : Option ℕ)
    → (m ≡ true) ↔ (3 ≤ count_of o)
    → ((if b then false else m) ≡ true) ↔ (3 ≤ count_of (if b then none else o))
removed_iff true m o h = (λ e. absurd (cc e), λ k. absurd (omega arith))
removed_iff false m o h = h

remove-IsTracked :
    (player : Str) (strikes : Map Str ℕ) (muted : Names)
    → IsTracked strikes muted
    → IsTracked (Maps.remove player strikes) (Maps.remove player muted)
remove-IsTracked player strikes muted h name =
    rw (contains_key-remove player name muted, Maps.lookup-remove player name strikes)
      (removed_iff (beq player name) (Maps.contains_key name muted) (Maps.lookup name strikes)
        (h name))

-- The player who is struck, with `n` strikes before.
struck_iff :
    (m : Bool) (n : ℕ)
    → (m ≡ true) ↔ (3 ≤ n)
    → ((if (leb 3 (min (n + 1) 255) && not m) && true then true else m) ≡ true)
      ↔ (3 ≤ min (n + 1) 255)
struck_iff true n h = (λ e. let k = h.0 refl in omega arith, λ k. ground arith)
struck_iff false n h = ground arith

muted_after :
    (b : Bool) (player name : Str) (s s' : State)
    → s'.muted ≡ s.muted
    → Maps.contains_key name
        (if b then record s' { muted = Maps.insert player tt s.muted } else s').muted
      ≡ (if b && beq player name then true else Maps.contains_key name s.muted)
muted_after true player name s s' e = contains_key-insert player name s.muted
muted_after false player name s s' e = ap (Maps.contains_key name) e

strikes_after :
    (b : Bool) (s : State) (muted : Names)
    → (if b then record s { muted = muted } else s).strikes ≡ s.strikes
strikes_after true s muted = refl
strikes_after false s muted = refl

other_iff :
    (b m : Bool) (o : Option ℕ)
    → (m ≡ true) ↔ (3 ≤ count_of o)
    → ((if b && false then true else m) ≡ true) ↔ (3 ≤ count_of o)
other_iff true m o h = h
other_iff false m o h = h

strike-IsTracked :
    (player : Str) (s : State)
    → IsTracked s.strikes s.muted
    → IsTracked
        (record_malformed_strike player s).1.strikes
        (record_malformed_strike player s).1.muted
unfolding record_malformed_strike strikes_of is_player_muted
strike-IsTracked player s h name =
    let n = min (strikes_of player s + 1) 255 in
    let s' = record s { strikes = Maps.insert player n s.strikes } in
    let newly = leb 3 n && not (is_player_muted player s) in
    rw
      (
        muted_after newly player name s s' refl,
        strikes_after newly s' (Maps.insert player tt s.muted),
        Maps.lookup-insert player name n s.strikes,
      )
      (elim (Bool-cases (beq player name)) [
        | inl same ↦ rw same (
            subst
              (λ x.
                ((if newly && true then true else Maps.contains_key x s.muted) ≡ true) ↔ (3 ≤ n))
              ((str_eq.beq_iff player name).0 same)
              (struck_iff (Maps.contains_key player s.muted) (strikes_of player s) (h player)))
        | inr other ↦
            rw other (
              other_iff newly (Maps.contains_key name s.muted) (Maps.lookup name s.strikes)
                (h name))
      ])

push_bounded-fits :
    (capacity : ℕ) (line : Str) (lines : List Str)
    → 1 ≤ capacity
    → length lines ≤ capacity
    → length (push_bounded capacity line lines) ≤ capacity
unfolding push_bounded
push_bounded-fits capacity line [] h k = omega arith
push_bounded-fits capacity line (oldest ∷ lines) h k =
    ground (arith, length-append lines (line ∷ []))

pub data Event : Type 0 where
  payload : Call → List ℕ → Event
  leave : Str → Event
  reload : Config → Event
  noted : Str → Event

unfoldable pub handle_event : Event → State → State
unfolding handle_payload
handle_event (payload call bytes) s = (handle_payload call bytes s).state
handle_event (leave name) s = clean_player_session name s
handle_event (reload config) s = set_config config s
handle_event (noted channel) s = note_channel channel s

unfoldable pub handle_events : List Event → State → State
unfolding handle_event
handle_events [] s = s
handle_events (event ∷ events) s = handle_events events (handle_event event s)

-- Each hello is counted as sent or as failed, the queues keep their bounds, and strikes and mutes
-- agree.
pub record IsSound (s : State) : Type 0 where
  pub counts : s.hellos_seen ≡ (s.policies_sent + s.send_failures) % 2 ^ 64
  pub recent_fits : length s.recent ≤ 16
  pub channels_fit : length s.channels_seen ≤ 32
  pub tracked : (name : Str) → (is_player_muted name s ≡ true) ↔ (3 ≤ strikes_of name s)

pub initial-IsSound : IsSound initial
unfolding initial is_player_muted strikes_of Maps.contains_key Maps.lookup
initial-IsSound = record {
  counts = refl;
  recent_fits = omega arith;
  channels_fit = omega arith;
  tracked = λ name. (λ e. absurd (cc e), λ k. absurd (omega arith));
}

either_muted :
    (b : Bool) (s : State) (muted : Names)
    → s.hellos_seen ≡ (s.policies_sent + s.send_failures) % 2 ^ 64
    → length s.recent ≤ 16
    → length s.channels_seen ≤ 32
    → IsTracked
        (if b then record s { muted = muted } else s).strikes
        (if b then record s { muted = muted } else s).muted
    → IsSound (if b then record s { muted = muted } else s)
unfolding is_player_muted strikes_of
either_muted true s muted counts recent channels tracked = record {
  counts = counts;
  recent_fits = recent;
  channels_fit = channels;
  tracked = tracked;
}
either_muted false s muted counts recent channels tracked = record {
  counts = counts;
  recent_fits = recent;
  channels_fit = channels;
  tracked = tracked;
}

IsSound-IsTracked : (s : State) → IsSound s → IsTracked s.strikes s.muted
unfolding is_player_muted strikes_of
IsSound-IsTracked s h = h.tracked

refuse-IsSound :
    (call : Call) (bytes : List ℕ) (s : State) → IsSound s → IsSound (refuse call bytes s).state
unfolding refuse record_malformed_strike
refuse-IsSound call bytes s h =
    let player = call.player_name in
    let n = min (strikes_of player s + 1) 255 in
    either_muted (leb 3 n && not (is_player_muted player s))
      (record s { strikes = Maps.insert player n s.strikes }) (Maps.insert player tt s.muted)
      h.counts h.recent_fits h.channels_fit (strike-IsTracked player s (IsSound-IsTracked s h))

-- In the middle of a handshake one hello is still to be counted as sent or failed.
record IsOpen (s : State) : Type 0 where
  counts : s.hellos_seen ≡ (s.policies_sent + s.send_failures + 1) % 2 ^ 64
  recent_fits : length s.recent ≤ 16
  channels_fit : length s.channels_seen ≤ 32
  tracked : IsTracked s.strikes s.muted

either_radar :
    (b : Bool) (name : Str) (s : State)
    → IsOpen s
    → IsOpen (if b then set_radar_subscriber name true s else s)
either_radar true name s h = record {
  counts = h.counts;
  recent_fits = h.recent_fits;
  channels_fit = h.channels_fit;
  tracked = h.tracked;
}
either_radar false name s h = h

abbrev finished : Bool → Call → ℕ → List (List ℕ) → State → Handled
finished sent call n frames s =
    if sent
    then record {
      outcome = replied call.summary n;
      sent = frames;
      state = remember_handshake call.summary (count_policy_sent s);
    }
    else record {
      outcome = send_failed call.summary;
      sent = [];
      state = remember_handshake call.summary (count_send_failure s);
    }

either_counted :
    (b : Bool) (call : Call) (n : ℕ) (frames : List (List ℕ)) (s : State)
    → IsOpen s
    → IsSound (finished b call n frames s).state
unfolding is_player_muted strikes_of
either_counted true call n frames s h = record {
  counts = omega (arith, h.counts);
  recent_fits = push_bounded-fits 16 call.summary s.recent (omega arith) h.recent_fits;
  channels_fit = h.channels_fit;
  tracked = h.tracked;
}
either_counted false call n frames s h = record {
  counts = omega (arith, h.counts);
  recent_fits = push_bounded-fits 16 call.summary s.recent (omega arith) h.recent_fits;
  channels_fit = h.channels_fit;
  tracked = h.tracked;
}

conclude-IsSound :
    (call : Call) (reply : Reply) (s : State) → IsOpen s → IsSound (conclude call reply s).state
unfolding conclude
conclude-IsSound call reply s h = either_counted call.is_java call _ reply.frames _ (
    either_radar (call.is_java && reply.offer.player_positions && s.config.allow_entity_radar)
      call.player_name s h)

answer-IsSound :
    (call : Call) (hello : Hello) (s : State) → IsSound s → IsSound (answer call hello s).state
unfolding answer
answer-IsSound call hello s h =
    let reply =
      build_reply s.config call.server_version call.instance_id call.plugin_version hello in
    conclude-IsSound call reply _ (record {
      counts = omega (arith, h.counts);
      recent_fits = h.recent_fits;
      channels_fit = h.channels_fit;
      tracked = IsSound-IsTracked s h;
    })

pub handle_payload-IsSound :
    (call : Call) (bytes : List ℕ) (s : State)
    → IsSound s
    → IsSound (handle_payload call bytes s).state
unfolding handle_payload
handle_payload-IsSound call bytes s h = elim (Bool-cases (is_player_muted call.player_name s)) [
  | inl on ↦ rw on h
  | inr off ↦ rw off (elim (Option-cases (parse_hello_c2s bytes)) [
    | inl none_read ↦ rw none_read (refuse-IsSound call bytes s h)
    | inr (hello, read) ↦ rw read (answer-IsSound call hello s h)
  ])
]

leave-IsSound : (name : Str) (s : State) → IsSound s → IsSound (clean_player_session name s)
unfolding clean_player_session is_player_muted strikes_of
leave-IsSound name s h = record {
  counts = h.counts;
  recent_fits = h.recent_fits;
  channels_fit = h.channels_fit;
  tracked = remove-IsTracked name s.strikes s.muted (IsSound-IsTracked s h);
}

noted_or_seen :
    (b : Bool) (channel : Str) (s : State)
    → IsSound s
    → IsSound
        (if b then s else record s { channels_seen = push_bounded 32 channel s.channels_seen })
unfolding is_player_muted strikes_of
noted_or_seen true channel s h = h
noted_or_seen false channel s h = record {
  counts = h.counts;
  recent_fits = h.recent_fits;
  channels_fit = push_bounded-fits 32 channel s.channels_seen (omega arith) h.channels_fit;
  tracked = h.tracked;
}

noted-IsSound : (channel : Str) (s : State) → IsSound s → IsSound (note_channel channel s)
unfolding note_channel
noted-IsSound channel s h = noted_or_seen (seen_among channel s.channels_seen) channel s h

handle_event-IsSound : (event : Event) (s : State) → IsSound s → IsSound (handle_event event s)
unfolding handle_event is_player_muted strikes_of
handle_event-IsSound (payload call bytes) s h = handle_payload-IsSound call bytes s h
handle_event-IsSound (leave name) s h = leave-IsSound name s h
handle_event-IsSound (reload config) s h = record {
  counts = h.counts;
  recent_fits = h.recent_fits;
  channels_fit = h.channels_fit;
  tracked = h.tracked;
}
handle_event-IsSound (noted channel) s h = noted-IsSound channel s h

-- From a state of which this holds, as it does of the first one, it holds after any sequence of
-- payloads, departures, reloads and channel registrations: a player is muted exactly if three
-- malformed payloads or more are counted since the player came; each hello is counted as a policy
-- sent or as a failure, up to the wrap of the 64-bit counters; and the two queues keep their bounds
-- of 16 and 32 entries.
pub handle_events-IsSound :
    (events : List Event) (s : State) → IsSound s → IsSound (handle_events events s)
unfolding handle_events
handle_events-IsSound [] s h = h
handle_events-IsSound (event ∷ events) s h =
    handle_events-IsSound events (handle_event event s) (handle_event-IsSound event s h)
