-- ===== src/Tests/CloudReplies.antt =====
-- The cloud in memory keeps to the pointers that the API client documents, once a wait for an
-- attachment ends with an error where the volume is not attached as it is waited for.
use linode_blockstorage_csi.Common.{
  ℤ, pos, ◌==ℤ◌, ==ℤ_iff, Option, none, some, Bool, true, false, Bool-cases, ◌≡◌, ◌≢◌, ap, sym, inl,
  inr, if◌then◌else◌,
}
use linode_blockstorage_csi.Errors.{foreign}
use linode_blockstorage_csi.Effect.{Result, ok, err}
use linode_blockstorage_csi.Api.{LinodeClient, Volume, Instance, VolumeCreateOptions}
use linode_blockstorage_csi.Api.Replies.{ApiReplies}
use linode_blockstorage_csi.Tests.Cloud.{Cloud, cloud_client, known, known_instance, created}

abbrev attached_to : ℤ → Option ℤ → Bool
attached_to n none = false
attached_to n (some m) = m ==ℤ n

abbrev awaited : Option ℤ → Option Volume → Result (Option Volume)
awaited none o = ok o
awaited (some n) none = err (foreign (pos 404))
awaited (some n) (some v) =
    if attached_to n v.linode_id then ok (some v) else err (foreign (pos 408))

abbrev pub patient_client : LinodeClient Cloud
patient_client = record cloud_client {
  wait_for_volume_linode_id = λ id n t w. (awaited n (w id), w);
}

pub known-given : (o : Option Volume) → known o ≢ ok none
known-given (some v) e = cc
known-given none e = cc

pub known_instance-given : (o : Option Instance) → known_instance o ≢ ok none
known_instance-given (some v) e = cc
known_instance-given none e = cc

pub created-given :
    (opts : VolumeCreateOptions) (w : Cloud) (o : Option Volume) → (created opts w o).0 ≢ ok none
created-given opts w (some v) e = cc
created-given opts w none e = cc

attached_to_sound : (n : ℤ) (o : Option ℤ) → attached_to n o ≡ true → o ≡ some n
attached_to_sound n none e = cc
attached_to_sound n (some m) e = ap some ((==ℤ_iff m n).0 e)

pub awaited-attached :
    (n : ℤ) (found o : Option Volume)
    → awaited (some n) found ≡ ok o
    → (v : Volume) × (o ≡ some v) × (v.linode_id ≡ some n)
awaited-attached n none o e = absurd cc
awaited-attached n (some v) o e = elim (Bool-cases (attached_to n v.linode_id)) [
  | inl h ↦ (v, inner (some v) o (sym (rw h at e)), attached_to_sound n v.linode_id h)
  | inr h ↦ absurd (failing o (rw h at e))
]
  where
    inner : (a b : Option Volume) → ok b ≡ ok a → b ≡ a
    inner a b k = cc

    failing : (b : Option Volume) → err (foreign (pos 408)) ≢ ok b
    failing b k = cc

pub patient_replies : ApiReplies patient_client
patient_replies = record {
  get_volume_given = λ id w. known-given (w id);
  get_instance_given = λ id w. known_instance-given _;
  get_region_given = λ r w e. cc;
  create_volume_given = λ o w. created-given o w (w (pos 7));
  clone_volume_given = λ id l w e. cc;
  wait_attached = λ id n t w o. awaited-attached n (w id) o;
}
