-- ===== src/Tests/Chains.antt =====
-- Chains of transactions at a concrete input: three bits, one output to spend, and keys for suffixes of one
-- bit.
use mathlib.Core.Option.{some-injective}
use bitcoin_messaging.Base.{
  ℕ, ◌+◌, ◌%◌, ◌≤◌, ◌<◌, ◌≡◌, refl, sym, ap, ◌∙◌, Bool, true, false, List, [], ◌∷◌, ◌++◌, some,
  arith, length, map, set, replicate, inl, if◌then◌else◌,
}
use bitcoin_messaging.Types.{DataBits, Data, data_to_bits, char_to_bool_vec, low_bit}
use bitcoin_messaging.Utilities.Fees.{transaction_fee, round_double, double_exponent}
use bitcoin_messaging.DataInterface.Pubkey.{IsCompressed}
use bitcoin_messaging.BlockchainInterface.{OutPoint, TxIn, Transaction}
use bitcoin_messaging.BlockchainInterface.Slices.{IsStored}
use bitcoin_messaging.BlockchainInterface.Optimizing.{
  Parameters, Config, round_fees, round_params, optimize_params-IsOptimal,
}
use bitcoin_messaging.BlockchainInterface.ScriptHash.{
  KeypairMap, Session, key_at, suffix, pack_data_into_p2sh, unpack_data_from_p2sh,
}
use bitcoin_messaging.BlockchainInterface.ScriptHash.Keys.{IsLucky, HasSuffixes}
use bitcoin_messaging.BlockchainInterface.ScriptHash.Spending.{IsSpendable, Grows}
use bitcoin_messaging.BlockchainInterface.ScriptHash.Inputs.{
  unpack_data_from_p2sh-pack_data_into_p2sh,
}
use bitcoin_messaging.BlockchainInterface.Embedding.{
  Round, embed_round, start_round, embed_data, extract_data,
}
use bitcoin_messaging.BlockchainInterface.Embedding.Claims.{AreClaimed, EndsIn}
use bitcoin_messaging.BlockchainInterface.Embedding.Step.{
  fees_of, embed_round-IsEmbedded, IsEmbedded,
}
use bitcoin_messaging.BlockchainInterface.Embedding.RoundTrip.{
  Reaches, here, onward, extract_data-embed_data,
}
use bitcoin_messaging.Utilities.Keypairs.{generate_keypair_map, keystore_loop}
use bitcoin_messaging.Utilities.Keypairs.Generating.{generate_keypair_map-HasSuffixes}
use bitcoin_messaging.Tests.Models.{ceil_root, ceil_root-le, log2, log2-le, log2-pos}
use bitcoin_messaging.Tests.Packing.{three_bits, plain_in, plain_out, direct_push}
use bitcoin_messaging.Tests.Wallet.{byte_keys, wallet_signing}

abbrev pub key_ending : ℕ → Data
key_ending last = 2 ∷ (replicate 31 0 ++ (last ∷ []))

abbrev pub two_keys : KeypairMap wallet_signing
unfolding wallet_signing
two_keys = (false ∷ [], key_ending 0) ∷ (true ∷ [], key_ending 1) ∷ []

abbrev pub no_draws : ℕ → ℕ → ℕ → Bool
no_draws call round i = false

abbrev pub session : Session wallet_signing
unfolding wallet_signing
session = record { store = record { knows = λ secret. true; redeems = [] }; calls = 0 }

pub lucky : IsLucky byte_keys 1 no_draws
lucky call bits size = (0, omega arith, λ pk h. refl)

ends :
    (b : Bool)
    → suffix wallet_signing 1 (data_to_bits (key_ending (if b then 1 else 0))) ≡ some (b ∷ [])
unfolding suffix data_to_bits char_to_bool_vec low_bit
ends true = refl
ends false = refl

pub both_suffixes : HasSuffixes wallet_signing two_keys 1 session.store
unfolding key_at wallet_signing
both_suffixes [] size = absurd (omega arith)
both_suffixes (true ∷ []) size =
    (key_ending 1, refl, (replicate 31 0 ++ (1 ∷ []), refl, inl refl), ends true, refl)
both_suffixes (false ∷ []) size =
    (key_ending 0, refl, (replicate 31 0 ++ (0 ∷ []), refl, inl refl), ends false, refl)
both_suffixes (b ∷ c ∷ slice) size = absurd (omega arith)

unpack_data_from_p2sh-pack_data_into_p2sh_example :
    (session' : Session wallet_signing) × ((rest : DataBits) × ((script script_sig : Data)
        × ((read : DataBits) × (pack_data_into_p2sh wallet_signing two_keys 1 1 no_draws session
                three_bits plain_out
                (record { vin = plain_in ∷ []; vout = [] })
                0
              ≡ some (
                session',
                rest,
                record plain_out { script_pub_key = script },
                record {
                  vin = set (plain_in ∷ []) 0 (record plain_in { script_sig = script_sig });
                  vout = [];
                },
              ))
            × (unpack_data_from_p2sh wallet_signing 1 (record plain_in { script_sig = script_sig })
                ≡ some read)
            × IsStored three_bits rest read
            × HasSuffixes wallet_signing two_keys 1 session'.store
            × IsSpendable wallet_signing session'.store script script_sig
            × Grows wallet_signing session.store session'.store)))
unpack_data_from_p2sh-pack_data_into_p2sh_example =
    unpack_data_from_p2sh-pack_data_into_p2sh wallet_signing two_keys 1 1 no_draws lucky session
      three_bits plain_out (record { vin = plain_in ∷ []; vout = [] }) 0 plain_in (omega arith)
      both_suffixes (omega arith) refl

abbrev pub config : Config
config = record { suffix_bits = 1; random_suffix_bits = 5; fee_rate = 100; out_of_range = λ fee. 0 }

abbrev pub one_kilobyte : Transaction → ℕ
one_kilobyte tx = 1000

abbrev pub no_params : Parameters
no_params = record { n_script_hash = 9; n_nulldata = 9; n_fees = 9 }

abbrev pub points : List OutPoint
points = record { hash = 8; n = 3 } ∷ []

abbrev pub start_at : Session wallet_signing → List OutPoint → DataBits → Round wallet_signing
start_at begun spent bits =
    start_round wallet_signing log2 ceil_root direct_push one_kilobyte config two_keys 1 no_draws
      begun no_params bits 20000 spent

abbrev pub start : DataBits → Round wallet_signing
start bits = start_at session points bits

abbrev pub fees : Round wallet_signing → ℕ
fees r = fees_of wallet_signing log2 ceil_root direct_push one_kilobyte config two_keys 1 no_draws r

start-fees :
    (begun : Session wallet_signing) (spent : List OutPoint) (bits : DataBits)
    → 0 < length bits
    → fees (start_at begun spent bits) ≡ 100
unfolding round_params round_fees transaction_fee round_double double_exponent
start-fees begun spent bits some_bits =
    let o =
      optimize_params-IsOptimal log2 direct_push one_kilobyte config
        (start_at begun spent bits).current bits 20000 no_params some_bits in
    ap (λ (p : Parameters). p.n_fees) o.result

embed_round-IsEmbedded_example :
    IsEmbedded wallet_signing log2 ceil_root direct_push one_kilobyte config two_keys 1 no_draws
      (start three_bits)
embed_round-IsEmbedded_example =
    embed_round-IsEmbedded wallet_signing log2 ceil_root direct_push one_kilobyte config two_keys 1
      no_draws log2-le log2-pos ceil_root-le lucky (start three_bits) both_suffixes refl refl
      (omega arith) (omega arith) (omega arith)
      (omega (arith, start-fees session points three_bits))

first_round :
    (begun : Session wallet_signing) (spent : List OutPoint) (bits : DataBits)
    → HasSuffixes wallet_signing two_keys 1 begun.store
    → 0 < length bits
    → length bits ≤ 32
    → IsEmbedded wallet_signing log2 ceil_root direct_push one_kilobyte config two_keys 1 no_draws
        (start_at begun spent bits)
first_round begun spent bits suffixes some_bits few =
    embed_round-IsEmbedded wallet_signing log2 ceil_root direct_push one_kilobyte config two_keys 1
      no_draws log2-le log2-pos ceil_root-le lucky (start_at begun spent bits) suffixes refl refl
      some_bits (omega arith) (omega arith) (omega (arith, start-fees begun spent bits some_bits))

-- One round takes up to 32 bits, so the loop ends with it.
pub start_at_funded :
    (begun : Session wallet_signing) (spent : List OutPoint) (bits : DataBits)
    (r s : Round wallet_signing)
    → Reaches wallet_signing log2 ceil_root direct_push one_kilobyte config two_keys 1 no_draws r s
    → HasSuffixes wallet_signing two_keys 1 begun.store
    → 0 < length bits
    → length bits ≤ 32
    → r ≡ start_at begun spent bits
    → fees s + 7644 < s.budget
start_at_funded begun spent bits _ _ (here t) suffixes some_bits few e =
    rw e (omega (arith, start-fees begun spent bits some_bits))
start_at_funded begun spent bits _ _ (onward r t s made more reached) suffixes some_bits few e =
    let first = first_round begun spent bits suffixes some_bits few in
    let run = λ (q : Round wallet_signing).
      embed_round wallet_signing log2 ceil_root direct_push one_kilobyte config two_keys 1 no_draws
        q in
    let same : first.made ≡ t = some-injective _ _ (sym first.returns ∙ ap run (sym e) ∙ made) in
    absurd (
      omega (
        arith,
        first.stored.2,
        first.enough,
        ap (λ (q : Round wallet_signing). length q.bits) same,
      ))

pub start_funded :
    (bits : DataBits) (r s : Round wallet_signing)
    → Reaches wallet_signing log2 ceil_root direct_push one_kilobyte config two_keys 1 no_draws r s
    → 0 < length bits
    → length bits ≤ 32
    → r ≡ start bits
    → fees s + 7644 < s.budget
start_funded bits r s reached some_bits few e =
    start_at_funded session points bits r s reached both_suffixes some_bits few e

extract_data-embed_data_example :
    (session' : Session wallet_signing) × ((first : Transaction) × ((others : List Transaction)
        × ((k : ℕ) × (embed_data wallet_signing log2 ceil_root direct_push one_kilobyte config
                two_keys 1 no_draws session no_params three_bits 20000 points
                (0x76 ∷ [])
              ≡ some (session', first ∷ others))
            × (map (λ (i : TxIn). i.prevout) first.vin ≡ points)
            × (extract_data wallet_signing log2 1 (first ∷ others)
                ≡ some (three_bits ++ replicate k false))
            × AreClaimed wallet_signing session'.store (first ∷ others)
            × EndsIn (0x76 ∷ []) (first ∷ others)
            × HasSuffixes wallet_signing two_keys 1 session'.store)))
extract_data-embed_data_example =
    extract_data-embed_data wallet_signing log2 ceil_root direct_push one_kilobyte config two_keys 1
      no_draws log2-le log2-pos ceil_root-le lucky session no_params three_bits 20000 points
      (0x76 ∷ []) both_suffixes (omega arith) (omega arith) (omega arith)
      (λ s reached.
        start_funded three_bits (start three_bits) s reached (omega arith) (omega arith) refl)

-- New keys end in a zero and a one by turns.
abbrev pub by_turns : ℕ → wallet_signing.Secret
unfolding wallet_signing
by_turns r = key_ending (r % 2)

pub by_turns-IsCompressed :
    (r : ℕ) → IsCompressed byte_keys (wallet_signing.public_key (by_turns r))
unfolding wallet_signing
by_turns-IsCompressed r = (replicate 31 0 ++ (r % 2 ∷ []), refl, inl refl)

pub both_come :
    (slice : DataBits)
    → length slice ≡ 1
    → (r : ℕ) × (r < 2)
      × (suffix wallet_signing 1 (data_to_bits (wallet_signing.public_key (by_turns r)))
          ≡ some slice)
unfolding wallet_signing
both_come [] size = absurd (omega arith)
both_come (true ∷ []) size = (1, omega arith, ends true)
both_come (false ∷ []) size = (0, omega arith, ends false)
both_come (b ∷ c ∷ slice) size = absurd (omega arith)

generate_keypair_map-HasSuffixes_example :
    (key_map : KeypairMap wallet_signing) × (generate_keypair_map wallet_signing by_turns 2 1
      ≡ some key_map)
    × (length key_map ≡ 2)
    × HasSuffixes wallet_signing key_map 1 (keystore_loop wallet_signing key_map session.store)
generate_keypair_map-HasSuffixes_example =
    generate_keypair_map-HasSuffixes wallet_signing by_turns 1 (omega arith) by_turns-IsCompressed 2
      both_come session.store
