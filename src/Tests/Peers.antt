-- ===== src/Tests/Peers.antt =====
-- The calls between nodes, on a node that is a counter.
use replicat.Prelude.{ℕ, ◌+◌, zero, suc, refl, ap, true, none, some, List, [], ◌∷◌}
use replicat.Exec.{Result, ok, err, Exec}
use replicat.Params.{TransportableParam}
use replicat.Openraft as Openraft
use replicat.Sql.{Bytes}
use replicat.Env.{Codec}
use replicat.Env.Memory.Codecs.{Encoded, codec_of, codec_of-IsRoundTrip, decode_entry, encode_entry}
use replicat.Rpc.Peer.{Peer, RoundTrips, Append, AddLearnerError, ClientWriteError}
use replicat.Tests.Data.{first_entry}

abbrev decode_number : Bytes → Result Unit ℕ
decode_number (n ∷ []) = ok n
decode_number _ = err tt

abbrev encode_number : (n : ℕ) → Encoded decode_number n
encode_number n = some (n ∷ [], refl)

abbrev number_codec : Codec ℕ
number_codec = codec_of decode_number encode_number

-- at most one entry
abbrev one_entry : Result Unit (Openraft.Entry ℕ) → Result Unit (List (Openraft.Entry ℕ))
one_entry (ok e) = ok (e ∷ [])
one_entry (err x) = err x

abbrev decode_entries : Bytes → Result Unit (List (Openraft.Entry ℕ))
decode_entries [] = ok []
decode_entries (n ∷ b) = one_entry (decode_entry (n ∷ b))

abbrev one_encoded :
    (e : Openraft.Entry ℕ) → Encoded decode_entry e → Encoded decode_entries (e ∷ [])
one_encoded e (some (n ∷ b, p)) = some (n ∷ b, ap one_entry p)
one_encoded e _ = none

abbrev encode_entries : (es : List (Openraft.Entry ℕ)) → Encoded decode_entries es
encode_entries [] = some ([], refl)
encode_entries (e ∷ []) = one_encoded e (encode_entry e.log_id e.payload)
encode_entries (_ ∷ _ ∷ _) = none

abbrev decode_params : Bytes → Result Unit (List TransportableParam)
decode_params [] = ok []
decode_params (zero ∷ []) = ok (TransportableParam.null ∷ [])
decode_params _ = err tt

abbrev encode_params : (ps : List TransportableParam) → Encoded decode_params ps
encode_params [] = some ([], refl)
encode_params (TransportableParam.null ∷ []) = some (0 ∷ [], refl)
encode_params _ = none

abbrev append : List (Openraft.Entry ℕ) → Exec ℕ ℕ ℕ
append [] raft = (err 9, raft)
append (e ∷ _) raft = (ok e.log_id.index, raft + 1)

-- a node that leads takes learners but the node 0, and no empty membership
abbrev learner : ℕ → Exec ℕ (AddLearnerError ℕ ℕ) ℕ
learner zero raft = (err (AddLearnerError.network_error 8), raft)
learner (suc id) raft = (ok (suc id), raft + 1)

abbrev change : List ℕ → Exec ℕ (ClientWriteError ℕ ℕ) ℕ
change [] raft = (err (ClientWriteError.change_membership 6), raft)
change (_ ∷ _) raft = (ok 0, raft + 1)

abbrev pub peer : Peer
peer = record {
  Raft = ℕ;
  Membership = ℕ;
  Meta = ℕ;
  Fatal = ℕ;
  Mismatch = ℕ;
  NetworkError = ℕ;
  ChangeError = ℕ;
  Appended = ℕ;
  Installed = ℕ;
  Voted = ℕ;
  Added = ℕ;
  Written = ℕ;
  Metrics = ℕ;
  append_entries = λ req raft. append req.entries raft;
  install_snapshot = λ req raft. (ok (req.meta + req.offset), raft + 1);
  vote = λ req raft. (ok req.vote.term, raft + 1);
  add_learner = λ id node blocking raft. learner id raft;
  change_membership = λ members allow_lagging retain raft. change members raft;
  metrics = λ raft. raft;
  client_write = λ req raft. (
    err (
        ClientWriteError.forward_to_leader
          (record { leader_id = some 2; leader_node = some (record { addr = "b:80" }) })),
    raft,
  );
  entries_codec = codec_of decode_entries encode_entries;
  meta_codec = number_codec;
  params_codec = codec_of decode_params encode_params;
  fatal_codec = number_codec;
  mismatch_codec = number_codec;
  network_error_codec = number_codec;
  change_error_codec = number_codec;
  appended_codec = number_codec;
  installed_codec = number_codec;
  voted_codec = number_codec;
  added_codec = number_codec;
  written_codec = number_codec;
  metrics_codec = number_codec;
}

pub peer-RoundTrips : RoundTrips peer
peer-RoundTrips = record {
  entries_ok = codec_of-IsRoundTrip decode_entries encode_entries;
  meta_ok = codec_of-IsRoundTrip decode_number encode_number;
  params_ok = codec_of-IsRoundTrip decode_params encode_params;
  appended_ok = codec_of-IsRoundTrip decode_number encode_number;
  installed_ok = codec_of-IsRoundTrip decode_number encode_number;
  voted_ok = codec_of-IsRoundTrip decode_number encode_number;
  added_ok = codec_of-IsRoundTrip decode_number encode_number;
}

abbrev ballot : Openraft.Vote
ballot = record { term = 3; node_id = 7; committed = true }

abbrev pub one_append : Append ℕ
one_append = record {
  vote = ballot;
  prev_log_id = none;
  entries = first_entry ∷ [];
  leader_commit = some first_entry.log_id;
}
