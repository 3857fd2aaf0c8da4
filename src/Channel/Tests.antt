-- ===== src/Channel/Tests.antt =====
-- The registration payload on concrete data.
use confluxmap_pumpkin.Base.{◌≡◌, refl, arith, [], ◌∷◌, All}
use confluxmap_pumpkin.Text.{ascii}
use confluxmap_pumpkin.Channel.{declared_channels, push_channels, register_body}
use confluxmap_pumpkin.Channel.Split.{split, IsName, split-register_body}

several : register_body (ascii "a" ∷ ascii "b" ∷ []) ≡ 97 ∷ 0 ∷ 98 ∷ 0 ∷ []
unfolding register_body push_channels
several = refl

declared_channels-IsName : All IsName declared_channels
unfolding declared_channels
declared_channels-IsName = ground arith

split-register_body_example : split (register_body declared_channels) ≡ declared_channels
split-register_body_example = split-register_body declared_channels declared_channels-IsName
