-- ===== src/Tests/Values.antt =====
-- The theorems on packets, packs, paths and tables at concrete values.
use git_proxy_go.Base.{
  contains, List, ℕ, ◌⊎◌, ◌≡◌, refl, ◌≤◌, ◌+◌, ◌++◌, true, false, not, ◌&&◌, ◌||◌, none, some, [],
  ◌∷◌, Str, codes, arith, length, member, to_lower, str_eq, has_prefix, ok, err, if◌then◌else◌,
  is_empty, all,
}
use git_proxy_go.Model.{Push, Repo, Attestation, Rejection}
use git_proxy_go.Pack.PktLine.{
  parse_packet_lines, packet_lines, classify, parse_hex16, invalid_length, judge, hex_digit,
}
use git_proxy_go.Pack.PktLine.RoundTrip.{encode_lines, parse_packet_lines-encode_lines}
use git_proxy_go.Pack.PktLine.Framing.{parse_packet_lines_bounds, parse_packet_lines_fuel}
use git_proxy_go.Pack.Objects.{
  parse_git_object_header, skip_size, base_length, git_object_type, parse_ofs_delta_offset,
  ofs_from, ofs_delta,
}
use git_proxy_go.Pack.Bounds.{parse_git_object_header_bounds}
use git_proxy_go.GitUrl.{process_url_path, repo_part, last_dot_git, git_path_of}
use git_proxy_go.GitUrl.Parts.{process_url_path_split}
use git_proxy_go.Chain.Action.{Action, empty_push, new_step}
use git_proxy_go.Chain.Checks.{author_emails, compiled_rules, email_rules, check_author_emails}
use git_proxy_go.Chain.Emails.{is_email_allowed}
use git_proxy_go.Chain.ScanDiff.{DiffMatcher, scan_diff_violations}
use git_proxy_go.Chain.DiffParser.{parse_added_changes}
use git_proxy_go.Chain.Gate.{check_if_waiting_auth, block_for_auth}
use git_proxy_go.Chain.Engine.{noted, run_chain}
use git_proxy_go.Chain.Approval.{is_refused, approved_passes}
use git_proxy_go.Chain.Verdicts.{check_author_emails_error, is_empty-scan_diff_violations}
use git_proxy_go.Chain.Engine.{system_reviewer}
use git_proxy_go.Chain.Inspect.{hidden_verdict}
use git_proxy_go.Chain.Hidden.{hidden_verdict_error}
use git_proxy_go.Db.Tables.{Database, find}
use git_proxy_go.Db.Json.{json_text, json_push, json_attestation}
use git_proxy_go.Db.Pushes.{row_of, value_of, write_audit, get_push, authorise}
use git_proxy_go.Db.Pushes.Laws.{Consistent, get_push-write_audit, get_push-authorise}
use git_proxy_go.Db.Repos.{column, can_push, get_repo_by_id, add_to_list, remove_from_list}
use git_proxy_go.Db.Repos.Laws.{member-add_to_list, member-remove_from_list}
use git_proxy_go.Proxy.{handle_message, handle_refs_error_message}
use git_proxy_go.Proxy.Packets.{message_line, parse-handle_message, parse-handle_refs_error_message}
use git_proxy_go.Tests.Fixture.{
  test_host, test_store, test_settings, test_request, approved, test_repo,
}

encode_lines_example :
    parse_packet_lines (encode_lines (codes "hi" ∷ []) ++ (codes "0000" ++ codes "PACK"))
    ≡ ok (codes "hi" ∷ [], length (encode_lines (codes "hi" ∷ [])) + 4)
encode_lines_example =
    parse_packet_lines-encode_lines (codes "hi" ∷ []) (codes "PACK") (omega arith, tt)

one_line : parse_packet_lines (codes "0006hi0000PACK") ≡ ok (codes "hi" ∷ [], 10)
unfolding parse_packet_lines packet_lines classify parse_hex16 judge hex_digit
one_line = refl

bounds_example : 10 ≤ 14
bounds_example = parse_packet_lines_bounds (codes "0006hi0000PACK") (codes "hi" ∷ []) 10 one_line

fuel_example :
    (packet_lines 20 (codes "0006hi0000PACK") 0 [] ≡ parse_packet_lines (codes "0006hi0000PACK"))
    × (((ls : List Str) × (n : ℕ) × (packet_lines 20 (codes "0006hi0000PACK") 0 [] ≡ ok (ls, n)))
        ⊎ ((length_hex : Str) × (offset : ℕ) × (packet_lines 20 (codes "0006hi0000PACK") 0 []
              ≡ err (invalid_length length_hex offset))))
fuel_example = parse_packet_lines_fuel (codes "0006hi0000PACK") 20 (omega arith)

handle_message_example :
    parse_packet_lines (handle_message (codes "no")) ≡ ok (message_line (codes "no") ∷ [], 13)
handle_message_example = parse-handle_message (codes "no") (omega arith)

handle_refs_example :
    parse_packet_lines (handle_refs_error_message (codes "no"))
    ≡ err (invalid_length (codes "\n000") 10)
handle_refs_example = parse-handle_refs_error_message (codes "no") (omega arith)

-- An ofs-delta whose size takes two bytes and whose offset takes one.
delta_header :
    parse_git_object_header (0xe1 ∷ 3 ∷ 5 ∷ 9 ∷ [])
    ≡ ok (record { type_name = ofs_delta; header_length = 3 })
unfolding parse_git_object_header skip_size base_length git_object_type parse_ofs_delta_offset
    ofs_from
delta_header = refl

header_example : (1 ≤ 3) × (3 ≤ 4)
header_example = parse_git_object_header_bounds (0xe1 ∷ 3 ∷ 5 ∷ 9 ∷ []) _ delta_header

path_parts :
    process_url_path (codes "/o/r.git/info/refs")
    ≡ some (record { repo_path = codes "/o/r.git"; git_path = codes "/info/refs" })
unfolding process_url_path repo_part last_dot_git git_path_of has_prefix
path_parts = refl

url_path_example :
    (rest : Str) × (length (codes "/o/r.git/info/refs") ≤ 512)
    × (codes "/o/r.git" ++ rest ≡ codes "/o/r.git/info/refs")
    × ((c : ℕ) × (stem : Str) × (codes "/o/r.git" ≡ c ∷ stem ++ codes ".git"))
    × (contains (codes "git" ++ rest) (codes ".git") ≡ false)
    × (codes "/info/refs" ≡ (if has_prefix rest (codes "/") then rest else codes "/"))
url_path_example = process_url_path_split (codes "/o/r.git/info/refs") _ path_parts

hidden_example :
    (hidden_verdict
      (codes "a" ∷ [])
      (codes "a" ∷ codes "z" ∷ [])
      (new_step (codes "checkHiddenCommits"))).error
    ≡ ((new_step (codes "checkHiddenCommits")).error
        || not (all (member (codes "a" ∷ [])) (codes "a" ∷ codes "z" ∷ [])))
hidden_example =
    hidden_verdict_error (codes "a" ∷ []) (codes "a" ∷ codes "z" ∷ [])
      (new_step (codes "checkHiddenCommits"))

abbrev table : Database
table = record { users = []; repos = test_repo ∷ []; pushes = row_of approved ∷ [] }

abbrev waiting : Push
waiting = record approved { id = codes "c__d"; authorised = false }

table-Consistent : Consistent table
unfolding row_of json_text
table-Consistent = ((approved, refl, refl, refl), tt)

abbrev review : Attestation
review = record { reviewer = system_reviewer; timestamp = []; automated = false; answers = [] }

abbrev refusal : Rejection
refusal = record {
  reviewer = system_reviewer;
  timestamp = [];
  automated = false;
  reason = codes "no";
}

write_audit_example : get_push (write_audit table waiting).0 (codes "a__b") ≡ (
    if not (is_empty waiting.id) && str_eq waiting.id (codes "a__b")
    then some (json_push waiting)
    else get_push table (codes "a__b"))
write_audit_example = get_push-write_audit table waiting (codes "a__b")

stored_push : get_push table (codes "a__b") ≡ some approved
unfolding get_push find value_of row_of str_eq json_text
stored_push = refl

authorise_example :
    get_push (authorise table (codes "a__b") review).0 (codes "a__b")
    ≡ elim (get_push table (codes "a__b")) [
      | none ↦ get_push table (codes "a__b")
      | some p ↦
          if str_eq (codes "a__b") (codes "a__b")
          then some (record p {
            authorised = true;
            canceled = false;
            rejected = false;
            attestation = some (json_attestation review);
          })
          else get_push table (codes "a__b")
    ]
authorise_example = get_push-authorise table (codes "a__b") (codes "a__b") review table-Consistent

stored_repo : get_repo_by_id table (codes "1") ≡ some test_repo
unfolding get_repo_by_id find str_eq
stored_repo = refl

add_example :
    (r' : Repo) × (get_repo_by_id
        (add_to_list (λ s. s) table (codes "1") (codes "Bo") can_push)
        (codes "1")
      ≡ some r')
    × (member (column can_push r') (codes "bo") ≡ (
        str_eq (to_lower (λ s. s) (codes "Bo")) (codes "bo")
        || member (column can_push test_repo) (codes "bo")))
add_example =
    member-add_to_list (λ s. s) table (codes "1") (codes "Bo") (codes "bo") can_push test_repo
      stored_repo

remove_example :
    (r' : Repo) × (get_repo_by_id
        (remove_from_list (λ s. s) table (codes "1") (codes "Al") can_push)
        (codes "1")
      ≡ some r')
    × (member (column can_push r') (codes "al") ≡ (
        not (str_eq (to_lower (λ s. s) (codes "Al")) (codes "al"))
        && member (column can_push test_repo) (codes "al")))
remove_example =
    member-remove_from_list (λ s. s) table (codes "1") (codes "Al") (codes "al") can_push test_repo
      stored_repo

-- An address that is none.
abbrev bad_author : Action
bad_author = record {
  push = record empty_push {
    commit_data =
        (record {
          tree = [];
          parent = [];
          author = codes "Al";
          committer = codes "Al";
          author_email = codes "al";
          committer_email = codes "al";
          commit_timestamp = codes "1";
          message = codes "fix";
        })
        ∷ [];
  };
  cleanup_clone = false;
}

no_rules :
    compiled_rules test_host test_store test_settings tt
      (email_rules test_host test_store test_settings tt)
    ≡ ok (none, none)
unfolding compiled_rules
no_rules = refl

emails_error_example :
    (check_author_emails test_host test_store test_settings tt tt
      (test_request (codes "receive-pack") none)
      bad_author).action.error
    ≡ (bad_author.error || not (all (λ e. is_email_allowed e none none) (author_emails bad_author)))
emails_error_example =
    check_author_emails_error test_host test_store test_settings tt tt
      (test_request (codes "receive-pack") none) bad_author (none, none) no_rules

-- An expression that finds "key" where it stands at the head of an added line.
abbrev finds_key : DiffMatcher
finds_key = record {
  kind = codes "Offending Literal";
  re = record {
    match_string = λ s. has_prefix s (codes "+key");
    find_all = λ s. if has_prefix s (codes "+key") then codes "key" ∷ [] else [];
  };
}

abbrev key_diff : Str
key_diff = codes "diff --git a/f b/f\n--- a/f\n+++ b/f\n@@ -0,0 +1 @@\n+key=1"

scan_example :
    is_empty (scan_diff_violations key_diff (finds_key ∷ []) (new_step (codes "scanDiff"))).0 ≡ (
      is_empty key_diff
      || all
          (λ ch. all (λ m. is_empty (m.re.find_all ch.content)) (finds_key ∷ []))
          (parse_added_changes key_diff))
scan_example = is_empty-scan_diff_violations key_diff (finds_key ∷ []) (new_step (codes "scanDiff"))

-- The action of the approved push, before the gate.
abbrev at_gate : Action
at_gate = record { push = record approved { authorised = false }; cleanup_clone = true }

approved_is_stored : test_store.get_push tt (codes "a__b") ≡ ok (some approved)
unfolding str_eq
approved_is_stored = refl

approved_passes_example :
    is_refused (
      noted test_host (
        run_chain test_host
          (check_if_waiting_auth test_host test_store test_settings tt
            ∷ block_for_auth test_host test_store test_settings tt
            ∷ [])
          tt
          (test_request (codes "receive-pack") none)
          at_gate))
    ≡ false
approved_passes_example =
    approved_passes test_host test_store test_settings tt
      (block_for_auth test_host test_store test_settings tt ∷ []) tt
      (test_request (codes "receive-pack") none) at_gate approved approved_is_stored refl refl refl

-- A byte of Latin-1 is replaced, and the text of UTF-8 around it is kept.
latin_byte :
    json_text (b'a' ∷ 233 ∷ b'b' ∷ 195 ∷ 169 ∷ []) ≡ b'a' ∷ 239 ∷ 191 ∷ 189 ∷ b'b' ∷ 195 ∷ 169 ∷ []
unfolding json_text
latin_byte = refl
