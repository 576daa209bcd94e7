-- ===== src/Tests/Channels.antt =====
-- DataInterface at concrete inputs.
use mathlib.Core.List.{Perm}
use bitcoin_messaging.Base.{
  ℕ, ◌^◌, ◌<◌, ◌≡◌, refl, sym, ap, Bool, true, false, List, [], ◌∷◌, Option, none, some, arith,
  length, replicate, ◌==◌,
}
use bitcoin_messaging.Types.{DataBits, bits_to_data, bool_vec_to_char}
use bitcoin_messaging.Utilities.{generate_random_bits}
use bitcoin_messaging.Maths.{sub64, iota, number_compositions, factorial}
use bitcoin_messaging.Maths.Compositions.{sum}
use bitcoin_messaging.DataInterface.{
  encode_data_in_sequence_nr, decode_data_in_sequence_nr, random_key, encode_data_in_pubkey,
  decode_data_in_pubkey, embeddable_bits_in_values, encode_data_in_values, decode_data_in_values,
  embeddable_bits_in_permutation, encode_data_in_permutation, decode_data_in_permutation,
}
use bitcoin_messaging.DataInterface.Sequence.{decode-encode_data_in_sequence_nr}
use bitcoin_messaging.DataInterface.Pubkey.{IsCompressed, decode-encode_data_in_pubkey}
use bitcoin_messaging.DataInterface.Amounts.{decode-encode_data_in_values}
use bitcoin_messaging.DataInterface.Orders.{decode-encode_data_in_permutation}
use bitcoin_messaging.Tests.Models.{ceil_root, ceil_root-le, log2, log2-le, even_keys}

abbrev word : DataBits
word = true ∷ replicate 31 false

decode-encode_data_in_sequence_nr_example :
    (nr : ℕ) × (encode_data_in_sequence_nr word ≡ some nr)
    × (nr < 2 ^ 32)
    × (decode_data_in_sequence_nr nr ≡ word)
decode-encode_data_in_sequence_nr_example = decode-encode_data_in_sequence_nr word refl

abbrev three_bits : DataBits
three_bits = true ∷ false ∷ true ∷ []

three_bits_fit : length three_bits ≡ embeddable_bits_in_values log2 4 3
unfolding embeddable_bits_in_values log2 number_compositions
three_bits_fit = refl

decode-encode_data_in_values_example :
    (values : List ℕ) × (encode_data_in_values log2 ceil_root three_bits 4 3 ≡ some values)
    × (length values ≡ 3)
    × (sum values ≡ 4)
    × (decode_data_in_values log2 values ≡ some three_bits)
decode-encode_data_in_values_example =
    decode-encode_data_in_values log2 log2-le ceil_root ceil_root-le three_bits 4 3 (omega arith)
      (omega arith) (omega arith) three_bits_fit (omega arith)

abbrev four_bits : DataBits
four_bits = true ∷ false ∷ true ∷ true ∷ []

four_bits_fit : length four_bits ≡ embeddable_bits_in_permutation log2 4
unfolding embeddable_bits_in_permutation log2 factorial
four_bits_fit = refl

decode-encode_data_in_permutation_example :
    (perm : List ℕ) × (encode_data_in_permutation log2 four_bits 4 ≡ some perm)
    × Perm perm (iota 4 0)
    × (decode_data_in_permutation log2 perm ≡ some four_bits)
decode-encode_data_in_permutation_example =
    decode-encode_data_in_permutation log2 log2-le four_bits 4 (omega arith) (omega arith)
      four_bits_fit (omega arith)

-- The first round draws ones, which make an odd key, the next one zeros.
abbrev draws : ℕ → ℕ → Bool
draws round i = round == 0

abbrev many_bits : DataBits
many_bits = replicate 250 true

second_round :
    (pk : even_keys.Key)
    → random_key even_keys many_bits 5 (draws 1) ≡ some pk
    → even_keys.is_fully_valid pk ≡ true
unfolding random_key even_keys bits_to_data sub64 generate_random_bits bool_vec_to_char
second_round pk h =
    ap (λ (o : Option even_keys.Key). elim o [ none ↦ true | some k ↦ even_keys.is_fully_valid k ])
      (sym h)

decode-encode_data_in_pubkey_example :
    (pk : even_keys.Key) × (encode_data_in_pubkey even_keys 2 many_bits 5 draws ≡ some pk)
    × (even_keys.is_fully_valid pk ≡ true)
    × (decode_data_in_pubkey even_keys pk 5 ≡ some many_bits)
    × IsCompressed even_keys pk
decode-encode_data_in_pubkey_example =
    decode-encode_data_in_pubkey even_keys 2 1 5 many_bits draws (omega arith) (omega arith) refl
      (omega arith) second_round
