-- ===== src/Jobs/Master/Files.antt =====
-- How the master sends the files that are uploaded: `onWorkerRequestsFile` and `onFileUploadComplete` of
-- gatling-commons/src/main/java/com/alh/gatling/commons/Master.java. A host is a number. The tracker's
-- texts, a tracking number and a host joined by a line, are pairs here.
pub mod Sent
use dist_gatling.Shared.{
  ℕ, Bool, true, false, ◌&&◌, ◌||◌, Option, none, some, List, [], ◌∷◌, ◌==◌, if◌then◌else◌,
}
use dist_gatling.Jobs.Master.{Master, Done, returned, threw, tell, file_job}

-- `fileTracker.contains`
unfoldable pub is_sent : ℕ → ℕ → List (ℕ × ℕ) → Bool
is_sent tracking host [] = false
is_sent tracking host ((t, h) ∷ ps) = t == tracking && h == host || is_sent tracking host ps

-- `onFileUploadComplete`
unfoldable pub on_file_upload_complete : ℕ → ℕ → Master → Done
unfolding is_sent
on_file_upload_complete tracking host m = returned (
    if is_sent tracking host m.file_tracker
    then m
    else record m { file_tracker = (tracking, host) ∷ m.file_tracker })

-- the first file that a host has not reported
unfoldable pub unsent_file : ℕ → List ℕ → List (ℕ × ℕ) → Option ℕ
unfolding is_sent
unsent_file host [] ps = none
unsent_file host (t ∷ ts) ps =
    let rest = unsent_file host ts ps in if is_sent t host ps then rest else some t

-- The job for a file. A library is given by its address, and another file is read before: whether it
-- can be given.
unfoldable pub send_file : ℕ → Bool → Master → Option ℕ → Done
send_file sender readable m none = returned m
send_file sender readable m (some t) =
    if readable then returned (tell sender (file_job t) m) else threw m

-- `onWorkerRequestsFile`
unfoldable pub on_worker_requests_file : ℕ → ℕ → Bool → Master → Done
unfolding unsent_file send_file
on_worker_requests_file sender host readable m =
    send_file sender readable m (unsent_file host m.file_database m.file_tracker)
