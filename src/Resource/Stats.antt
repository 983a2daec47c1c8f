-- ===== src/Resource/Stats.antt =====
-- `nif_stats_raw` (`merkletree_nif_stats` of c_src/nif.cpp). An `int` is a number here: there is no
-- memory for 2 ^ 31 states.
use diode_server.Base.{some}
use diode_server.Terms.{Term, integer, tuple4}
use diode_server.Resource.{H}

-- `merkletree_nif_stats`; without `DEBUG` nothing changes `resources`, which is 0
unfoldable pub merkletree_nif_stats : H Term
merkletree_nif_stats heap =
    some (tuple4 (integer 0) (integer 0) (integer heap.shared_states) (integer 0), heap)
