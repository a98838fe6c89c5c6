-- ===== src/Dispatch/Client.antt =====
-- What the client sends against what the gossiper makes of it.
use p2p_dapp.Base.{
  String, ◌≡◌, refl, subst, ◌⊎◌, inl, inr, Bool, true, false, ◌&&◌, Option, none, some, arith,
  if◌then◌else◌, ◌==◌, string_eq, nat_eq, pair_eq, int_eq, list_eq,
}
use p2p_dapp.Packet.{Bytes, Message}
use p2p_dapp.Dispatch.{
  is_set, get_type_from_message, Arguments, empty_message, get_input_type, message_of_type,
  convert_input_to_message,
}

-- The type that the gossiper gives to what the client calls by another name.
abbrev pub gossiper_type : String → String
gossiper_type t =
    if t == "request" then "dataRequest" else if t == "search" then "searchRequest" else t

-- The pointers that `processClientMessages` follows for a type are not nil.
abbrev pub pointers_set : String → Message → Bool
pointers_set t m =
    if t == "private"
    then is_set m.destination
    else if t == "file"
    then is_set m.file
    else if t == "dataRequest"
    then is_set m.file && is_set m.destination && is_set m.request
    else if t == "searchRequest"
    then is_set m.keywords && is_set m.budget
    else true

abbrev pub Kinds : Arguments → String → Type 0
Kinds a t =
    ((t ≡ "rumor") × ((a.msg == "") ≡ false))
    ⊎ ((t ≡ "private") × ((a.msg == "") ≡ false))
    ⊎ (t ≡ "file")
    ⊎ (t ≡ "request")
    ⊎ (t ≡ "search")
    ⊎ (t ≡ "unknown")

pub input-Kinds : (a : Arguments) → Kinds a (get_input_type a)
unfolding get_input_type
input-Kinds a = ground arith

-- What is claimed of one message of one type of input.
abbrev Kept : String → Message → Type 0
Kept t m =
    (get_type_from_message false m ≡ gossiper_type t)
    × (pointers_set (get_type_from_message false m) m ≡ true)

abbrev KeptIf : String → Option Message → Type 0
KeptIf t none = Unit {0}
KeptIf t (some m) = Kept t m

kept :
    (decode : String → Option Bytes) (a : Arguments) (t : String)
    → Kinds a t
    → KeptIf t (message_of_type t decode a)
unfolding message_of_type get_type_from_message is_set
kept decode a t (inl (e, msg)) = rw e (rw msg (refl, refl))
kept decode a t (inr (inl (e, msg))) = rw e (rw msg (refl, refl))
kept decode a t (inr (inr (inl e))) = rw e (refl, refl)
kept decode a t (inr (inr (inr (inl e)))) =
    rw e
      (elim (decode a.request)
        as (λ r. KeptIf "request" (elim r [
          | none ↦ none
          | some hash ↦ some (record empty_message {
            request = some hash;
            file = some a.file;
            destination = some a.dest;
          })
        ])) [ none ↦ tt | some hash ↦ (refl, refl) ])
kept decode a t (inr (inr (inr (inr (inl e))))) = rw e (refl, refl)
kept decode a t (inr (inr (inr (inr (inr e))))) = rw e tt

-- Outside the simple mode, whatever message the client builds from its arguments, the gossiper
-- takes it for the same kind, and finds every field that it reads for that kind.
pub client_message_kind :
    (decode : String → Option Bytes) (a : Arguments) (m : Message)
    → convert_input_to_message decode a ≡ some m
    → (get_type_from_message false m ≡ gossiper_type (get_input_type a))
      × (pointers_set (get_type_from_message false m) m ≡ true)
unfolding convert_input_to_message
client_message_kind decode a m h =
    subst (KeptIf (get_input_type a)) h (kept decode a (get_input_type a) (input-Kinds a))
