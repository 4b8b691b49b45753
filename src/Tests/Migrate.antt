-- ===== src/Tests/Migrate.antt =====
-- What the theorems on the migration say of a log of three lines and of a source with one user.
use git_proxy_go.Base.{
  ◌≡◌, refl, true, false, none, [], ◌∷◌, Str, codes, str_eq, split, Result, ok, err, trim_space,
  if◌then◌else◌,
}
use git_proxy_go.Migrate.Replay.{
  NeDbLine, document, replay_nedb, put_document, delete_document, remove_string,
}
use git_proxy_go.Migrate.Replay.Laws.{IsOrdered}
use git_proxy_go.Migrate.Replay.Refines.{log_value, replay_nedb_refines}
use git_proxy_go.Migrate.Run.{Source, run}
use git_proxy_go.Migrate.Run.Laws.{IsCounted, run-IsCounted, run-dry}
use git_proxy_go.Proxy.{Body}
use git_proxy_go.Tests.Fixture.{test_user, whole}
use git_proxy_go.Tests.Api.{db, store}

-- A line is its id, behind a dash where it is a tombstone.
abbrev line_of : Str → Result NeDbLine
line_of [] = err (codes "empty")
line_of (c ∷ s) =
    if str_eq (c ∷ []) (codes "-")
    then ok (record { id = s; deleted = true; index = false })
    else ok (record { id = c ∷ s; deleted = false; index = false })

abbrev log : Body
log = whole (codes "a\nb\n-a\n")

log_replays :
    replay_nedb line_of log
    ≡ ok (record { live = (codes "b", codes "b") ∷ []; order = codes "b" ∷ [] })
unfolding replay_nedb split trim_space str_eq document put_document delete_document remove_string
log_replays = refl

replay_example :
    IsOrdered (record { live = (codes "b", codes "b") ∷ []; order = codes "b" ∷ [] })
    × ((id : Str)
        → document ((codes "b", codes "b") ∷ []) id
          ≡ log_value line_of (split b'\n' (codes "a\nb\n-a\n")) id none)
replay_example =
    replay_nedb_refines line_of log
      (record { live = (codes "b", codes "b") ∷ []; order = codes "b" ∷ [] }) log_replays

abbrev one_user : Source
one_user = record {
  kind = codes "nedb";
  users = ok (record test_user { username = codes "cy" } ∷ test_user ∷ []);
  repos = ok [];
  pushes = ok [];
}

counted_example : IsCounted (run store false one_user db).1
counted_example = run-IsCounted store false one_user db

dry_example : (run store true one_user db).0 ≡ db
dry_example = run-dry store one_user db
