-- ===== src/Tests/Written.antt =====
-- Main at a concrete input: the text "h".
use bitcoin_messaging.Base.{◌≡◌, refl, [], ◌∷◌, ◌++◌, true, false, some}
use bitcoin_messaging.Types.{DataBits}
use bitcoin_messaging.DataCompression.{compress, transform_char_domain, is_char_invalid, left_at}
use bitcoin_messaging.DataCompression.Shipped.{shipped_codes, eof_word}

abbrev pub h_bits : DataBits
h_bits = (true ∷ true ∷ false ∷ false ∷ false ∷ []) ++ eof_word

pub h_compressed : compress (transform_char_domain (104 ∷ [])) shipped_codes ≡ some h_bits
unfolding compress transform_char_domain is_char_invalid left_at
h_compressed = refl
