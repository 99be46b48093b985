-- ===== src/Env/Memory/Codecs.antt =====
-- The encodings of `Memory`: a value is a few numbers. A client's request has none.
use replicat.Prelude.{
  ℕ, zero, suc, String, ◌≡◌, refl, ap, ◌∙◌, inl, inr, arith, Option, none, some, List, [], ◌∷◌,
  str_eq, eq_iff, Bool-cases, true, false, Bool,
}
use replicat.Exec.{Result, ok, err}
use replicat.Sql.{Bytes}
use replicat.Openraft.{LogId, Vote, EntryPayload, blank, normal, membership, Entry, SnapshotMeta}
use replicat.Env.{Codec, IsRoundTrip}

-- an encoding that comes with the proof that it decodes
abbrev pub Encoded : {A : Type 0} → (Bytes → Result Unit A) → A → Type 0
Encoded dec a = Option ((b : Bytes) × (dec b ≡ ok a))

abbrev vec_of :
    {A : Type 0} {dec : Bytes → Result Unit A} {a : A} → Encoded dec a → Result Unit Bytes
vec_of none = err tt
vec_of (some (b, _)) = ok b

abbrev pub codec_of :
    {A : Type 0} (dec : Bytes → Result Unit A) → ((a : A) → Encoded dec a) → Codec A
codec_of dec enc = record { to_vec = λ a. vec_of (enc a); from_slice = dec }

vec_of-decodes :
    {A : Type 0} (dec : Bytes → Result Unit A) (a : A) (o : Encoded dec a) (b : Bytes)
    → vec_of o ≡ ok b
    → dec b ≡ ok a
vec_of-decodes dec a none b e = ground arith
vec_of-decodes dec a (some (b', p)) b e = ground (arith, p)

pub codec_of-IsRoundTrip :
    {A : Type 0} (dec : Bytes → Result Unit A) (enc : (a : A) → Encoded dec a)
    → IsRoundTrip (codec_of dec enc)
codec_of-IsRoundTrip dec enc = record { decode = λ a b. vec_of-decodes dec a (enc a) b }

abbrev id_of : ℕ → ℕ → ℕ → LogId
id_of term node index = record { leader_id = record { term = term; node_id = node }; index = index }

abbrev decode_id : Bytes → Result Unit LogId
decode_id (term ∷ node ∷ index ∷ []) = ok (id_of term node index)
decode_id _ = err tt

abbrev encode_id : (id : LogId) → Encoded decode_id id
encode_id id = some (id.leader_id.term ∷ id.leader_id.node_id ∷ id.index ∷ [], refl)

abbrev pub log_id_codec : Codec LogId
log_id_codec = codec_of decode_id encode_id

pub log_id_codec-IsRoundTrip : IsRoundTrip log_id_codec
log_id_codec-IsRoundTrip = codec_of-IsRoundTrip decode_id encode_id

abbrev decode_vote : Bytes → Result Unit Vote
decode_vote (term ∷ node ∷ zero ∷ []) =
    ok (record { term = term; node_id = node; committed = false })
decode_vote (term ∷ node ∷ suc _ ∷ []) =
    ok (record { term = term; node_id = node; committed = true })
decode_vote _ = err tt

abbrev encode_vote :
    (term node : ℕ) (committed : Bool)
    → Encoded decode_vote (record { term = term; node_id = node; committed = committed })
encode_vote term node false = some (term ∷ node ∷ 0 ∷ [], refl)
encode_vote term node true = some (term ∷ node ∷ 1 ∷ [], refl)

abbrev pub vote_codec : Codec Vote
vote_codec = codec_of decode_vote λ v. encode_vote v.term v.node_id v.committed

pub vote_codec-IsRoundTrip : IsRoundTrip vote_codec
vote_codec-IsRoundTrip =
    codec_of-IsRoundTrip decode_vote (λ v. encode_vote v.term v.node_id v.committed)

-- A membership is a number.
abbrev pub decode_entry : Bytes → Result Unit (Entry ℕ)
decode_entry (term ∷ node ∷ index ∷ []) =
    ok (record { log_id = id_of term node index; payload = blank })
decode_entry (term ∷ node ∷ index ∷ m ∷ []) =
    ok (record { log_id = id_of term node index; payload = membership m })
decode_entry _ = err tt

abbrev pub encode_entry :
    (id : LogId) (p : EntryPayload ℕ) → Encoded decode_entry (record { log_id = id; payload = p })
encode_entry id blank = some (id.leader_id.term ∷ id.leader_id.node_id ∷ id.index ∷ [], refl)
encode_entry id (membership m) =
    some (id.leader_id.term ∷ id.leader_id.node_id ∷ id.index ∷ m ∷ [], refl)
encode_entry id (normal _) = none

abbrev pub entry_codec : Codec (Entry ℕ)
entry_codec = codec_of decode_entry λ e. encode_entry e.log_id e.payload

pub entry_codec-IsRoundTrip : IsRoundTrip entry_codec
entry_codec-IsRoundTrip = codec_of-IsRoundTrip decode_entry (λ e. encode_entry e.log_id e.payload)

abbrev pub Effective : Type 0
Effective = Option LogId × ℕ

abbrev decode_effective : Bytes → Result Unit Effective
decode_effective (m ∷ []) = ok (none, m)
decode_effective (m ∷ term ∷ node ∷ index ∷ []) = ok (some (id_of term node index), m)
decode_effective _ = err tt

abbrev encode_effective : (o : Option LogId) (m : ℕ) → Encoded decode_effective (o, m)
encode_effective none m = some (m ∷ [], refl)
encode_effective (some id) m =
    some (m ∷ id.leader_id.term ∷ id.leader_id.node_id ∷ id.index ∷ [], refl)

abbrev pub membership_codec : Codec Effective
membership_codec = codec_of decode_effective λ m. encode_effective m.0 m.1

pub membership_codec-IsRoundTrip : IsRoundTrip membership_codec
membership_codec-IsRoundTrip = codec_of-IsRoundTrip decode_effective (λ m. encode_effective m.0 m.1)

-- the ids of a few snapshots
abbrev snapshot_name : ℕ → String
snapshot_name zero = "--0"
snapshot_name (suc zero) = "n-2-0"
snapshot_name (suc (suc zero)) = "n-2-1"
snapshot_name _ = "n-1-0"

abbrev find_name : (k : String) → List ℕ → Option ((n : ℕ) × (snapshot_name n ≡ k))
find_name k [] = none
find_name k (n ∷ ns) =
    let rest = find_name k ns in
    elim (Bool-cases (str_eq (snapshot_name n) k)) [
      | inl e ↦ some (n, (eq_iff (snapshot_name n) k).0 e)
      | inr _ ↦ rest
    ]

abbrev Meta : Type 0
Meta = SnapshotMeta Effective

abbrev meta_of : Option LogId → ℕ → Result Unit Effective → Result Unit Meta
meta_of last n (ok m) =
    ok (record { last_log_id = last; last_membership = m; snapshot_id = snapshot_name n })
meta_of last n (err e) = err e

abbrev decode_meta : Bytes → Result Unit Meta
decode_meta (n ∷ zero ∷ b) = meta_of none n (decode_effective b)
decode_meta (n ∷ suc _ ∷ term ∷ node ∷ index ∷ b) =
    meta_of (some (id_of term node index)) n (decode_effective b)
decode_meta _ = err tt

abbrev meta_with : Option LogId → Effective → String → Meta
meta_with last m k = record { last_log_id = last; last_membership = m; snapshot_id = k }

abbrev encode_meta :
    (last : Option LogId) (m : Effective) (k : String)
    → Option ((n : ℕ) × (snapshot_name n ≡ k))
    → Encoded decode_effective m
    → Encoded decode_meta (meta_with last m k)
encode_meta none m k (some (n, p)) (some (b, q)) =
    some (n ∷ 0 ∷ b, ap (meta_of none n) q ∙ ap (λ j. ok (meta_with none m j)) p)
encode_meta (some id) m k (some (n, p)) (some (b, q)) = some (
  n ∷ 1 ∷ id.leader_id.term ∷ id.leader_id.node_id ∷ id.index ∷ b,
  ap (meta_of (some id) n) q ∙ ap (λ j. ok (meta_with (some id) m j)) p,
)
encode_meta _ _ _ _ _ = none

abbrev encode_known : (meta : Meta) → Encoded decode_meta meta
encode_known meta =
    encode_meta meta.last_log_id meta.last_membership meta.snapshot_id
      (find_name meta.snapshot_id (0 ∷ 1 ∷ 2 ∷ 3 ∷ []))
      (encode_effective meta.last_membership.0 meta.last_membership.1)

abbrev pub meta_codec : Codec Meta
meta_codec = codec_of decode_meta encode_known

pub meta_codec-IsRoundTrip : IsRoundTrip meta_codec
meta_codec-IsRoundTrip = codec_of-IsRoundTrip decode_meta encode_known
