-- ===== src/Tests/SequenceRuns.antt =====
-- Requests in sequence, in the small cloud.
use linode_blockstorage_csi.Common.{
  ◌*◌, ◌^◌, pos, codes, atoi, split_pair, Option, some, none, List, [], ◌∷◌, All, ◌≡◌, refl, arith,
}
use linode_blockstorage_csi.Effect.{ok, State}
use linode_blockstorage_csi.Volumes.{
  volume_id_as_int, node_id_as_int, parse_linode_volume_key, key_of_parts,
}
use linode_blockstorage_csi.Capacity.{CapacityRange}
use linode_blockstorage_csi.Controller.{Server}
use linode_blockstorage_csi.Controller.Spec.{
  Request, delete_request, publish_request, unpublish_request, expand_request,
}
use linode_blockstorage_csi.Controller.Refinement.{Run, after_all, after_all-Run}
use linode_blockstorage_csi.Controller.Refinement.Lasting.{Spares, Lasts, after_all-Lasts}
use linode_blockstorage_csi.Controller.Refinement.Attachments.{
  Leaves, IsAttached, after_all-IsAttached,
}
use linode_blockstorage_csi.Tests.Cloud.{Cloud, cloud_client, a_volume, holding, start, writer}
use linode_blockstorage_csi.Tests.CloudFrame.{cloud_frame}

abbrev server : Server
server = record { volume_label_prefix = []; region = codes "us-east" }

abbrev to_20 : Option CapacityRange
to_20 = some (record { required_bytes = pos (20 * 2 ^ 30); limit_bytes = pos 0 })

-- The volume is published, expanded and unpublished, and deleted.
abbrev life : List Request
life =
    publish_request
      (record { volume_id = codes "3-k8spvc"; node_id = codes "5"; volume_capability = writer })
    ∷ expand_request (codes "3-k8spvc") to_20
    ∷ unpublish_request (codes "3-k8spvc") (codes "5")
    ∷ delete_request (codes "3-k8spvc")
    ∷ []

-- Another volume is deleted, and the volume expanded and unpublished from another node.
abbrev others : List Request
others =
    delete_request (codes "4-k8spvc")
    ∷ expand_request (codes "3-k8spvc") to_20
    ∷ unpublish_request (codes "3-k8spvc") (codes "6")
    ∷ []

abbrev held : State Cloud
held = start (holding (a_volume [] (some (pos 5))))

other_volume : volume_id_as_int (codes "DeleteVolume") (codes "4-k8spvc") ≡ ok (pos 4)
unfolding volume_id_as_int parse_linode_volume_key split_pair key_of_parts atoi
other_volume = refl

other_node : node_id_as_int (codes "ControllerUnpublishVolume") (codes "6") ≡ ok (pos 6)
unfolding node_id_as_int atoi
other_node = refl

others-Spares : All (Spares (pos 3)) others
others-Spares = ((λ e. let four = other_volume in absurd (ground arith)), (tt, (tt, tt)))

others-Leaves : All (Leaves (pos 3) (pos 5)) others
others-Leaves = (tt, (tt, ((λ h e. let six = other_node in absurd (ground arith)), tt)))

after_all-Run_example :
    Run server life
      (holding (a_volume [] none))
      (after_all cloud_client server life (start (holding (a_volume [] none)))).world
after_all-Run_example = after_all-Run cloud_frame server life (start (holding (a_volume [] none)))

after_all-Lasts_example :
    Lasts (pos 3) (a_volume [] (some (pos 5))) (after_all cloud_client server others held).world
after_all-Lasts_example =
    after_all-Lasts cloud_frame server others held (pos 3) (a_volume [] (some (pos 5))) refl
      others-Spares

after_all-IsAttached_example :
    IsAttached (pos 3) (pos 5) (after_all cloud_client server others held).world
after_all-IsAttached_example =
    after_all-IsAttached cloud_frame server others held (pos 3) (pos 5)
      (a_volume [] (some (pos 5)), refl, refl) others-Leaves
