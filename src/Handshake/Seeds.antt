-- ===== src/Handshake/Seeds.antt =====
-- What the policy tells of a seed that is not shared.
use confluxmap_pumpkin.Base.{
  ℕ, ◌%◌, ◌^◌, ◌<◌, ◌≡◌, ◌↔◌, refl, sym, ap, ◌∙◌, false, Option, none, some, List, [], ◌∷◌, ◌++◌,
  map, arith, take, drop, All,
}
use confluxmap_pumpkin.Base.Int.{ℤ, to_word}
use confluxmap_pumpkin.Text.{ascii}
use confluxmap_pumpkin.Identity.Hex.{IsNibble, nibbles, hex_digit, hex, nibbles-IsNibble}
use confluxmap_pumpkin.Identity.Halves.{shift_all, shift_all-nibbles}
use confluxmap_pumpkin.Wire.Bytes.{to_be}
use confluxmap_pumpkin.Wire.Writer
use confluxmap_pumpkin.Protocol.{Str, write_utf, build_hello_policy}
use confluxmap_pumpkin.Protocol.Growth.{build_hello_policy-Extends}
use confluxmap_pumpkin.Config.{Config, world_id_for, dims_for_policy, resolve_worldgen}
use confluxmap_pumpkin.Handshake.{build_policy}

hex_digit_cancel : (d e : ℕ) → d < 16 → e < 16 → hex_digit d ≡ hex_digit e → d ≡ e
hex_digit_cancel d e hd he same = ground arith

hex_digits_cancel :
    (ds es : List ℕ)
    → All IsNibble ds
    → All IsNibble es
    → map hex_digit ds ≡ map hex_digit es
    → ds ≡ es
hex_digits_cancel [] [] hd he same = refl
hex_digits_cancel [] (e ∷ es) hd he same = absurd (cc same)
hex_digits_cancel (d ∷ ds) [] hd he same = absurd (cc same)
hex_digits_cancel (d ∷ ds) (e ∷ es) (h, hd) (k, he) same =
    let first : hex_digit d ≡ hex_digit e = cc same in
    let others : map hex_digit ds ≡ map hex_digit es = cc same in
    rw (hex_digit_cancel d e h k first, hex_digits_cancel ds es hd he others)

-- The low 48 bits of a seed.
abbrev pub low_48 : ℤ → ℕ
low_48 seed = to_word (2 ^ 64) seed % 2 ^ 48

hex_12_cancel : (n m : ℕ) → n < 2 ^ 48 → m < 2 ^ 48 → hex 12 n ≡ hex 12 m → n ≡ m
hex_12_cancel n m hn hm same =
    let digits =
      hex_digits_cancel (nibbles 12 n) (nibbles 12 m) (nibbles-IsNibble 12 n)
        (nibbles-IsNibble 12 m) same in
    omega (
      arith,
      shift_all-nibbles 0 12 n (omega arith) (omega arith),
      ap (λ ds. shift_all 0 ds) digits,
      shift_all-nibbles 0 12 m (omega arith) (omega arith),
    )

-- The owner keeps the seed back, and gives the world no id of its own.
abbrev pub withheld : Config → ℤ → Config
withheld c seed = record c { seed = some seed; share_seed = false; world_id_override = none }

-- What a client reads of a policy behind the constant part of the world's id.
policy_digits :
    (c : Config) (seed : ℤ) (v : Option Str)
    → take 12 (drop 28 (build_policy (withheld c seed) v)) ≡ hex 12 (low_48 seed)
unfolding build_policy nibbles write_utf Writer.u16 to_be
policy_digits c seed v =
    let policy =
      build_hello_policy-Extends 0 (world_id_for seed) (resolve_worldgen (withheld c seed) v)
        c.budgets (dims_for_policy (withheld c seed)) in
    ap (λ frame. take 12 (drop 28 frame)) policy.whole

-- The rest of the policy does not depend on the seed.
policy_of :
    (c : Config) (v : Option Str) (s t : ℤ)
    → low_48 s ≡ low_48 t
    → build_policy (withheld c s) v ≡ build_policy (withheld c t) v
unfolding build_policy
policy_of c v s t same =
    ap
      (λ n.
        build_hello_policy 0 (ascii "00000000-0000-0000-0000-" ++ hex 12 n) (resolve_worldgen c v)
          c.budgets (dims_for_policy (withheld c s)))
      same

-- Where `share_seed` is off and no `world_id` is configured, the policies of two seeds are the same
-- exactly if the seeds agree in their low 48 bits, whatever the rest of the configuration and the
-- version of the server.
pub build_policy-withheld :
    (c : Config) (v : Option Str) (s t : ℤ)
    → (build_policy (withheld c s) v ≡ build_policy (withheld c t) v) ↔ (low_48 s ≡ low_48 t)
build_policy-withheld c v s t = (
  λ same. hex_12_cancel (low_48 s) (low_48 t) (omega arith) (omega arith) (
      sym (policy_digits c s v) ∙ ap (λ frame. take 12 (drop 28 frame)) same ∙ policy_digits c t v),
  λ same. policy_of c v s t same,
)
