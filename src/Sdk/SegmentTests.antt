-- ===== src/Sdk/SegmentTests.antt =====
-- The theorems on segments at the worlds of the fixture.
use c_sdk.Base.{ℕ, refl, false, none, some, ◌==◌, if◌then◌else◌, arith, codes}
use c_sdk.Sdk.Fixture.{reply, txn_one, custom_two, datastore_three, world, system, query, request}
use c_sdk.Sdk.Machine.{Transaction, World, Ends}
use c_sdk.Sdk.Datastore.{no_datastore, start_datastore_segment}
use c_sdk.Sdk.External.{start_external_segment}
use c_sdk.Sdk.Segment.{start_segment, end_segment, set_segment_parent}
use c_sdk.Sdk.Segment.Create.{has_slash}
use c_sdk.Sdk.Segment.Start.{IsFree, StartedCustom, start_segment-Ends}
use c_sdk.Sdk.Segment.Finish.{
  IsOpen, as_custom, as_datastore, Ended, end_segment-Ends, Refused, end_segment-Refused,
}
use c_sdk.Sdk.Segment.Parent.{Joined, set_segment_parent-Ends}
use c_sdk.Sdk.Segment.Typed.{
  NoSlash, absent, present, StartedDatastore, start_datastore_segment-Ends, Timed, timed,
  timing-unlocked, StartedExternal, start_external_segment-Ends,
}

free_one : IsFree world 1 txn_one
free_one = record { address = omega arith; live = refl; unlocked = refl }

start_segment-Ends_example :
    Ends
      (StartedCustom reply world 1 txn_one free_one (codes "Custom/name"))
      (start_segment reply 1 (some (codes "name")) none world)
unfolding has_slash
start_segment-Ends_example =
    start_segment-Ends reply world 1 txn_one free_one (some (codes "name")) none (omega arith)

three_open : IsOpen reply world 1 3 txn_one datastore_three 1
three_open = record {
  address = omega arith;
  live = refl;
  segment = omega arith;
  transaction = omega arith;
  type_of = λ s. refl;
}

two_open : IsOpen reply world 1 2 txn_one custom_two 0
two_open = record {
  address = omega arith;
  live = refl;
  segment = omega arith;
  transaction = omega arith;
  type_of = λ s. refl;
}

end_segment-Ends_example :
    Ends
      (Ended reply world 1 3 txn_one datastore_three 1 free_one three_open
        (as_datastore no_datastore refl refl))
      (end_segment reply 1 (some 3) world)
end_segment-Ends_example =
    end_segment-Ends reply world 1 3 txn_one datastore_three 1 free_one three_open
      (as_datastore no_datastore refl refl) refl

-- The same world with another transaction at 1.
abbrev other_txn : Transaction
other_txn = record { txn = 58; locked = false }

abbrev other_world : World ℕ
other_world = record world { transactions = λ q. if q == 1 then some other_txn else none }

free_other : IsFree other_world 1 other_txn
free_other = record { address = omega arith; live = refl; unlocked = refl }

two_open_other : IsOpen reply other_world 1 2 other_txn custom_two 0
two_open_other = record {
  address = omega arith;
  live = refl;
  segment = omega arith;
  transaction = omega arith;
  type_of = λ s. refl;
}

end_segment-Refused_example :
    Ends
      (Refused reply other_world 1 2 other_txn custom_two 0 free_other two_open_other)
      (end_segment reply 1 (some 2) other_world)
end_segment-Refused_example =
    end_segment-Refused reply other_world 1 2 other_txn custom_two 0 free_other two_open_other
      (as_custom refl) (omega arith)

set_segment_parent-Ends_example :
    Ends
      (Joined reply world 1 2 txn_one custom_two free_one
        (omega arith)
        refl
        refl
        (omega arith)
        datastore_three)
      (set_segment_parent reply 2 3 world)
set_segment_parent-Ends_example =
    set_segment_parent-Ends reply world 1 2 txn_one custom_two free_one (omega arith) refl refl
      (omega arith) 3 datastore_three (omega arith) (omega arith) refl

product-NoSlash : NoSlash query.product
unfolding has_slash
product-NoSlash = present (codes "MySQL") refl refl

collection-NoSlash : NoSlash query.collection
unfolding has_slash
collection-NoSlash = present (codes "users") refl refl

host-NoSlash : NoSlash query.host
unfolding has_slash
host-NoSlash = present (codes "db") refl refl

start_datastore_segment-Ends_example :
    Ends
      (StartedDatastore reply world 1 txn_one free_one system query (codes "MySQL"))
      (start_datastore_segment reply system 1 (some query) world)
start_datastore_segment-Ends_example =
    start_datastore_segment-Ends reply world 1 txn_one free_one system query (codes "MySQL") refl
      product-NoSlash collection-NoSlash (absent refl) host-NoSlash (omega arith)

timing-unlocked_example :
    Ends
      (Timed reply world 1 txn_one free_one system query 5 6)
      (timed reply world 1 txn_one free_one system query 5 6 world)
timing-unlocked_example =
    timing-unlocked reply world 1 txn_one free_one system query (codes "MySQL") 5 6 refl
      product-NoSlash collection-NoSlash (absent refl) host-NoSlash (omega arith)

start_external_segment-Ends_example :
    Ends
      (StartedExternal reply world 1 txn_one free_one request (codes "http://x/"))
      (start_external_segment reply 1 (some request) world)
unfolding has_slash
start_external_segment-Ends_example =
    start_external_segment-Ends reply world 1 txn_one free_one request (codes "http://x/") refl
      (present (codes "curl") refl refl) (absent refl) (omega arith)
