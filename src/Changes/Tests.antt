-- ===== src/Changes/Tests.antt =====
-- Texts with and without quotation marks.
use aptos_etl.Prelude.{◌≡◌, refl}
use aptos_etl.Prelude.Text.{codes}
use aptos_etl.Changes.{strip_quotes}
use aptos_etl.Changes.Quotes.{Stripped, strip_quotes-Stripped}

back_only : strip_quotes (codes "a\"") ≡ codes "a"
unfolding strip_quotes
back_only = refl

front_only : strip_quotes (codes "\"a") ≡ codes "\"a"
unfolding strip_quotes
front_only = refl

strip_quotes-Stripped_example : Stripped (codes "\"0x1\"") (strip_quotes (codes "\"0x1\""))
strip_quotes-Stripped_example = strip_quotes-Stripped (codes "\"0x1\"")
