-- ===== src/Tests/WriterExamples.antt =====
-- The theorems on the writer and on live runs at a run with one record.
use sealedrun.Prelude.{◌≡◌, refl, none, some, true, false, [], ◌∷◌, lookup, sorted_set}
use sealedrun.Result.{ok, err, live_run}
use sealedrun.Hashing.{zero_hash, digest_size, zeros, object_hash, digest}
use sealedrun.Keys.{sign, sign_one, es256_sign}
use sealedrun.Signing.{seal, signing_input}
use sealedrun.Keys.Encoding.{to_big}
use sealedrun.Writer.{finish, append, new_writer, preview, revert, seal_doc, start}
use sealedrun.Writer.Chained.{revert-append, IsChained, Reached-IsChained, created, started}
use sealedrun.Recorder.Store.{record_row, count_cloud_labels}
use sealedrun.Recorder.Live
use sealedrun.Recorder.Live.{
  LiveRuns, writer_of, seal_step, check_target, store_step, settle, advance_run, take_back,
}
use sealedrun.Recorder.Live.Ended.{end_failed}
use sealedrun.Recorder.Live.Atomic.{append_failed, append_stored}
use sealedrun.Tests.Toy.{
  toy, toy_signers, toy_delegation, toy_new, toy_started, toy_called, toy_first, toy_call,
  toy_fields, toy_step, toy_row, toy_live,
}

writer_created : new_writer toy_signers toy_delegation "r" ≡ ok toy_new
unfolding new_writer zero_hash digest_size zeros
writer_created = refl

first_started : start toy toy_new none (toy_fields "a" none) ≡ ok (toy_started, toy_first)
unfolding start append preview seal_doc seal object_hash digest signing_input sign sign_one
    es256_sign sorted_set to_big
first_started = refl

Reached-IsChained_example : IsChained toy toy_started
Reached-IsChained_example =
    Reached-IsChained toy toy_signers toy_delegation "r"
      (started none (toy_fields "a" none) toy_first (created writer_created) first_started)

call_appended :
    append toy toy_started "tool_call" (toy_fields "b" toy_call.protected.extensions)
    ≡ ok (toy_called, toy_call)
unfolding append preview seal_doc seal object_hash digest signing_input sign sign_one es256_sign
    sorted_set to_big
call_appended = refl

revert-append_example : revert toy_called toy_call true ≡ ok toy_started
revert-append_example =
    revert-append toy toy_started toy_called "tool_call"
      (toy_fields "b" toy_call.protected.extensions) toy_call call_appended

toy_uncommitted :
    Live.append toy "r" toy_step false toy_live ≡ (err (live_run "record not stored"), toy_live)
unfolding Live.append writer_of seal_step check_target preview seal_doc seal object_hash digest
    signing_input sign sign_one es256_sign sorted_set to_big store_step settle take_back revert
toy_uncommitted = refl

append_failed_example :
    (toy_live.db ≡ toy_live.db) × (lookup "r" toy_live.writers ≡ some toy_started)
append_failed_example =
    append_failed toy "r" toy_step false toy_live toy_live toy_started
      (live_run "record not stored") refl refl toy_uncommitted

-- The state behind the committed tool call.
abbrev toy_after : LiveRuns
toy_after = record toy_live {
  writers = ("r", toy_called) ∷ [];
  db = record toy_live.db {
    runs = record toy_row { record_count = 2 } ∷ [];
    records = record_row toy_call ∷ [];
  };
}

toy_committed : Live.append toy "r" toy_step true toy_live ≡ (ok toy_call, toy_after)
unfolding Live.append writer_of seal_step check_target preview seal_doc seal object_hash digest
    signing_input sign sign_one es256_sign sorted_set to_big store_step settle advance_run
    count_cloud_labels
toy_committed = refl

append_stored_example :
    (toy_call.protected.seq ≡ 1)
    × (toy_call.protected.prev_hash ≡ "h")
    × (toy_after.db.records ≡ record_row toy_call ∷ [])
    × (lookup "r" toy_after.writers ≡ some toy_called)
append_stored_example =
    append_stored toy "r" toy_step true toy_live toy_after toy_started toy_call refl refl
      toy_committed

end_uncommitted :
    Live.end_run toy "r" (toy_fields "b" none) false toy_live
    ≡ (err (live_run "run_end not stored"), toy_live)
unfolding Live.end_run writer_of finish append preview seal_doc seal object_hash digest
    signing_input sign sign_one es256_sign sorted_set to_big settle take_back revert
end_uncommitted = refl

end_failed_example : (toy_live.db ≡ toy_live.db) × (lookup "r" toy_live.writers ≡ some toy_started)
end_failed_example =
    end_failed toy "r" (toy_fields "b" none) false toy_live toy_live toy_started
      (live_run "run_end not stored") refl refl end_uncommitted
