-- ===== src/Blockchain/Hash.antt =====
-- The hashes of blocks and transactions (gossiper/utils.go) over SHA-256, and the bytes of a name.
use Prim.Native.Char.{code}
use p2p_dapp.Base.{ℕ, ◌+◌, ◌/◌, ◌%◌, ◌^◌, String, [], ◌∷◌, ◌++◌, ltb, if◌then◌else◌, length}
use p2p_dapp.Packet.{Bytes, TxPublish, BlockPublish}

-- The UTF-8 bytes of a code point.
unfoldable pub utf8 : ℕ → Bytes
utf8 c =
    if ltb c 0x80
    then c ∷ []
    else if ltb c 0x800
    then (0xC0 + c / 64) ∷ (0x80 + c % 64) ∷ []
    else if ltb c 0x10000
    then (0xE0 + c / 4096) ∷ (0x80 + c / 64 % 64) ∷ (0x80 + c % 64) ∷ []
    else (0xF0 + c / 262144) ∷ (0x80 + c / 4096 % 64) ∷ (0x80 + c / 64 % 64) ∷ (0x80 + c % 64) ∷ []

-- `[]byte(text)`
unfoldable pub bytes_of : String → Bytes
unfolding utf8
bytes_of String.[] = []
bytes_of (String.◌∷◌ c s) = utf8 (code c) ++ bytes_of s

-- `binary.Write` of a uint32 in little endian.
unfoldable pub little_endian : ℕ → Bytes
little_endian n = n % 256 ∷ n / 256 % 256 ∷ n / 65536 % 256 ∷ n / 16777216 % 256 ∷ []

module _ (sha256 : Bytes → Bytes) where
  -- The size of the file is not hashed.
  unfoldable pub tx_hash : TxPublish → Bytes
  unfolding bytes_of little_endian
  tx_hash t =
      sha256
        (little_endian (length (bytes_of t.name) % 2 ^ 32) ++ bytes_of t.name ++ t.metafile_hash)

  unfoldable pub block_hash : BlockPublish → Bytes
  unfolding tx_hash
  block_hash b = sha256 (b.prev_hash ++ tx_hash b.transaction)
