-- ===== src/Packet.antt =====
-- The packets of gossiper/header.go, the packet with its sender of gossiper/connectionhandler.go,
-- and the client's message of helpers/generalhelpers.go. A pointer field is an `Option`, nil is
-- `none`; an address stands for its printed form, by which the code compares addresses.
use p2p_dapp.Base.{ℕ, ℤ, String, List, Option, none}

abbrev pub Bytes : Type 0
Bytes = List ℕ

abbrev pub Address : Type 0
Address = String

-- The message of the simple broadcast mode.
pub record SimpleMessage : Type 0 where
  pub original_name : String
  pub relay_peer_addr : String
  pub contents : String

pub record RumorMessage : Type 0 where
  pub origin : String
  pub id : ℕ
  pub text : String

pub record PeerStatus : Type 0 where
  pub identifier : String
  pub next_id : ℕ

pub record StatusPacket : Type 0 where
  pub want : List PeerStatus

-- `TLCAck` is this type under another name.
pub record PrivateMessage : Type 0 where
  pub origin : String
  pub id : ℕ
  pub text : String
  pub destination : String
  pub hop_limit : ℕ

pub record DataRequest : Type 0 where
  pub origin : String
  pub destination : String
  pub hop_limit : ℕ
  pub hash_value : Bytes

-- `contents` is the field `Data`, `none` where the slice is nil.
pub record DataReply : Type 0 where
  pub origin : String
  pub destination : String
  pub hop_limit : ℕ
  pub hash_value : Bytes
  pub contents : Option Bytes

pub record SearchRequest : Type 0 where
  pub origin : String
  pub budget : ℕ
  pub keywords : List String

pub record SearchResult : Type 0 where
  pub file_name : String
  pub metafile_hash : Bytes
  pub chunk_map : List ℕ
  pub chunk_count : ℕ

pub record SearchReply : Type 0 where
  pub origin : String
  pub destination : String
  pub hop_limit : ℕ
  pub results : List SearchResult

pub record TxPublish : Type 0 where
  pub name : String
  pub size : ℕ
  pub metafile_hash : Bytes

pub record BlockPublish : Type 0 where
  pub prev_hash : Bytes
  pub transaction : TxPublish

-- `fitness` is the number of units of 2^-149 in the float32, which is at least 0 where the
-- program draws it (`rand.Float32`): every such float is a whole number of units. The vector clock is
-- a pointer, which may be nil in a packet that comes.
pub record TlcMessage : Type 0 where
  pub origin : String
  pub id : ℕ
  pub confirmed : ℤ
  pub tx_block : BlockPublish
  pub vector_clock : Option StatusPacket
  pub fitness : ℕ

pub record GossipPacket : Type 0 where
  pub simple : Option SimpleMessage
  pub rumor : Option RumorMessage
  pub status : Option StatusPacket
  pub private : Option PrivateMessage
  pub data_request : Option DataRequest
  pub data_reply : Option DataReply
  pub search_request : Option SearchRequest
  pub search_reply : Option SearchReply
  pub tlc_message : Option TlcMessage
  pub ack : Option PrivateMessage

-- `&GossipPacket{}`
abbrev pub empty_packet : GossipPacket
empty_packet = record {
  simple = none;
  rumor = none;
  status = none;
  private = none;
  data_request = none;
  data_reply = none;
  search_request = none;
  search_reply = none;
  tlc_message = none;
  ack = none;
}

pub record ExtendedGossipPacket : Type 0 where
  pub packet : GossipPacket
  pub sender_addr : Address

-- The message of the client.
pub record Message : Type 0 where
  pub text : String
  pub destination : Option String
  pub file : Option String
  pub request : Option Bytes
  pub keywords : Option String
  pub budget : Option ℕ
