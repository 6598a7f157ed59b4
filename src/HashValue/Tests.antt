-- ===== src/HashValue/Tests.antt =====
-- Hash values at concrete inputs.
use aptos_etl.Prelude.{◌≡◌, refl, [], ◌∷◌}
use aptos_etl.Prelude.Text.{codes}
use aptos_etl.HashValue.{HashValue, encode}

abbrev hash : HashValue
hash = record { bytes = 0 ∷ 171 ∷ 255 ∷ [] }

encoded : encode hash ≡ codes "0x00abff"
unfolding encode
encoded = refl
