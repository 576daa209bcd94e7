-- ===== src/Lib.antt =====
-- The Bitcoin Messaging System hides a message in a chain of Bitcoin transactions: the text is
-- compressed with a Huffman code, and the bits are stored in the sequence numbers, the public keys,
-- the amounts and the order of the inputs and outputs of the transactions.
--
-- The files of src/lib/bms and the modules that model them:
--
--   Types            src/lib/bms/Types.cpp: bit vectors, bytes and integers. Digits, Bytes and
--                    Integers hold the theorems.
--   Maths            src/lib/bms/Maths.cpp: binomials, and the ranking of permutations and of
--                    compositions. Choose, Binomial, Smaller, Permutations, Search and Compositions
--                    hold the theorems.
--   Utilities        src/lib/bms/Utilities.cpp: random bits and digits; Fees has TransactionFee
--                    (Bounds for a chain), Minimum MinimumBudget, Keypairs GenerateKeypairMap
--                    (Suffixes counts bit vectors, Filing and Generating have the proofs), State the
--                    global variables (Persisting: across restarts, Chainstate: after a message).
--   Serialization    src/lib/bms/Serialization.cpp: Restoring has the round trip of the keypair map
--                    and the reading of the configuration, Updating the writing of its state.
--   DataInterface    src/lib/bms/DataInterface.cpp: data in sequence numbers (Sequence), public keys
--                    (Pubkey), amounts (Amounts) and orders (Orders).
--   DataCompression  src/lib/bms/DataCompression.cpp: the Huffman code. Frequencies counts characters,
--                    Building makes the tree, Ways, Tree and Distinct read the code off it, Codebook
--                    is the compression with any prefix code, Learning puts these together, and
--                    Shipped is the code of src/config/huffcode.map (Shipped/Table).
--   BlockchainInterface  src/lib/bms/BlockchainInterface.cpp: the packing of data into parts of a
--                    transaction and its reverse. Fields has sequence numbers and Nulldata scripts,
--                    Budget amounts and orders, Slices what all of them take of the data. Optimizing
--                    is OptimizeParams, Selecting SelectInputs (Continuing: the last transaction
--                    first), Reading ReadTransactions (Blocks: over blocks): Backwards the walk along
--                    the inputs, Splitting the cut into messages. ScriptHash is PackDataIntoP2SH and
--                    UnpackDataFromP2SH: Parsing has the loops over a script, Keys the list of public
--                    keys, Inputs the round trip at an input, Spending signs an input again. Embedding
--                    is EmbedData and ExtractData: Outputs has the amounts and orders of a round,
--                    Inputs the loop over the inputs, Step a whole round, RoundTrip the chain, Claims
--                    its links, Rereading two chains that are read alike. Authorizing is
--                    AuthorizeTransactions and SendTransactions: Claimed authorizes what Embedding
--                    made, Readable gives it to Reading (Linked). Signing is what they use of the
--                    client.
--   Messages         src/Main.cpp: a text on its way into a chain and back. Commands has the two
--                    commands and what they use of the client, RoundTrip the way from one to the
--                    other, History many of them.
--   Base             the tests, lists, options and bits that they share.
--   Tests            concrete functions for the parameters, and the theorems at concrete inputs.
--
-- DataInterface calls Types to turn bits into bytes and integers, Maths to turn integers into
-- compositions and permutations, and Utilities for random bits. DataCompression stands by itself; its
-- output is what BlockchainInterface stores, which takes slices of it and gives them to DataInterface.
--
-- The names are those of the source in lower case: EncodeDataInValues is encode_data_in_values, and
-- the loop of a function f is f_loop or has a name of its own. A failed assert, a read out of range
-- and a missing key are `none`. Bytes and `char`s are numbers below 256, unsigned integers of 16, 32
-- and 64 bits are numbers with `% 2 ^ w` written where they wrap, BigInt is a number where it cannot
-- be negative. An `int` is the number it stands for, and where a computation leaves it there is `none`:
-- the size of a vector of bits that is cast to it, the frequency of a character, the sum of two. A loop
-- whose 32-bit counter never comes to its end is `none` too. A file that cannot be opened, and the
-- directory that is not found, are `none` as the exceptions that they cause.
--
-- TransactionFee multiplies doubles: Fees rounds both factors and the product to 53 bits as they do,
-- and what a conversion out of range gives is a field of Config, of which nothing is assumed.
--
-- Loops are structural recursion on the rounds left or on the list they run over. The division by 2 of
-- IntToDataBits recurs on the order of numbers. The two searches of IntegerToComposition get 2^64
-- rounds, one for each value of the 64-bit variable they change: with more they would repeat. The loop
-- of BuildTree gets one round more than there are leaves, and each round takes a node away. The loop
-- of EncodeDataInPubkey draws until a key is valid, which only luck ends: its fuel is an argument, and
-- the theorem about it assumes that one of the rounds that the fuel allows draws a valid key. So is
-- the fuel of ReadTransactions, one round for each transaction of the chain. The scan of n
-- transactions of blocks gets n * n + n + 2 rounds: each match takes one away, and between matches the
-- index grows. OptimizeParams counts the script hashes down from 14. The loops over a script get as
-- many rounds as it has bytes. The loop of EmbedData gets one round more than there are bits, and each
-- round takes 32 of them at least. Its two vectors that grow, txs[idx] and txs[idx+1], are the fields
-- current and next of the record Round.
--
-- Parameters stand for code outside src/lib/bms: the root (round_root) and the logarithm (floor_log2)
-- of the floating-point library, with upper bounds on their results; CPubKey (PubKeys); the random
-- device (coins, draws); the building of scripts (Scripts), the archives of files (Archive), scripts,
-- keystore and signing (Signing), the size of a transaction and the wallet's answers, floating-point
-- amounts and their sorting included; the priority queue (NodeQueue), which may give nodes of equal
-- frequency in any order.
--
-- Not modelled: src/lib/core and src/lib/api/jsonrpc, copies of other projects;
-- src/lib/api/BitcoinWallet.cpp, which forwards remote calls; the dialogue of Main.cpp; of
-- Utilities.cpp the conversion of transactions to hexadecimal digits; of Serialization.cpp the file of
-- the Huffman code; of BlockchainInterface.cpp SelectAddress, a call of the wallet.
mod Base
pub mod Types
pub mod Maths
pub mod Utilities
pub mod DataInterface
pub mod DataCompression
pub mod BlockchainInterface
pub mod Serialization
pub mod Messages
mod Tests
