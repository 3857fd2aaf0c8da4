-- ===== src/Channel/Split.antt =====
-- A client that splits the registration payload at its NUL bytes.
use confluxmap_pumpkin.Base.{
  ℕ, ◌≡◌, ◌≢◌, refl, sym, ap, ◌∙◌, true, false, List, [], ◌∷◌, ◌++◌, append_assoc, append-nil,
  arith, ◌==◌, All,
}
use confluxmap_pumpkin.Channel.{push_channels, register_body}

-- The names that stand in front of a NUL each; `name` is what the current one has so far.
unfoldable pub split_from : List ℕ → List ℕ → List (List ℕ)
split_from name [] = []
split_from name (b ∷ bs) = elim (b == 0) [
  | true ↦ name ∷ split_from [] bs
  | false ↦ split_from (name ++ b ∷ []) bs
]

unfoldable pub split : List ℕ → List (List ℕ)
unfolding split_from
split body = split_from [] body

-- A name without a NUL.
abbrev pub IsName : List ℕ → Type 0
IsName name = All (λ b. b ≢ 0) name

-- What the loop writes behind `body`.
unfoldable terminated : List (List ℕ) → List ℕ
terminated [] = []
terminated (c ∷ cs) = c ++ (0 ∷ terminated cs)

push_channels-terminated :
    (body : List ℕ) (cs : List (List ℕ)) → push_channels body cs ≡ body ++ terminated cs
unfolding push_channels terminated
push_channels-terminated body [] = sym (append-nil body)
push_channels-terminated body (c ∷ cs) =
    push_channels-terminated ((body ++ c) ++ 0 ∷ []) cs
    ∙ append_assoc (body ++ c) (0 ∷ []) (terminated cs)
    ∙ append_assoc body c (0 ∷ terminated cs)

split_from-other :
    (name : List ℕ) (b : ℕ) (bs : List ℕ)
    → (b == 0) ≡ false
    → split_from name (b ∷ bs) ≡ split_from (name ++ b ∷ []) bs
unfolding split_from
split_from-other name b bs h = rw (h, split_from)

split_from-name :
    (name c rest : List ℕ)
    → IsName c
    → split_from name (c ++ (0 ∷ rest)) ≡ (name ++ c) ∷ split_from [] rest
unfolding split_from
split_from-name name [] rest h = rw (append-nil name)
split_from-name name (b ∷ c) rest (h, hs) =
    split_from-other name b (c ++ (0 ∷ rest)) (ground arith)
    ∙ split_from-name (name ++ b ∷ []) c rest hs
    ∙ ap (λ t. t ∷ split_from [] rest) (append_assoc name (b ∷ []) c)

split_from-terminated : (cs : List (List ℕ)) → All IsName cs → split_from [] (terminated cs) ≡ cs
unfolding split_from terminated
split_from-terminated [] h = refl
split_from-terminated (c ∷ cs) (h, hs) =
    split_from-name [] c (terminated cs) h ∙ ap (λ t. c ∷ t) (split_from-terminated cs hs)

-- A client that splits the payload at its NUL bytes has the declared channels back, in their order,
-- where no name has a NUL.
pub split-register_body : (cs : List (List ℕ)) → All IsName cs → split (register_body cs) ≡ cs
unfolding split register_body
split-register_body cs h = rw (push_channels-terminated [] cs) (split_from-terminated cs h)
