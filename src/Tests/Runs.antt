-- ===== src/Tests/Runs.antt =====
-- A push and a fetch through the whole handler.
use git_proxy_go.Base.{
  ◌≡◌, refl, false, none, some, [], codes, str_eq, has_prefix, trim_prefix, contains, member, cut,
  before, split, join, trim_space, fields, to_lower, show, replace_first, str_leb, sort_strings,
  read_digits, hex_char, hex4,
}
use git_proxy_go.GitUrl.{
  last_dot_git, repo_part, git_path_of, process_url_path, pick_name, match_host, match_scheme,
  match_name, process_git_url_for_name_and_org, valid_git_request,
}
use git_proxy_go.Pack.PktLine.{
  hex_digit, parse_hex16, invalid_length, judge, classify, packet_lines, parse_packet_lines,
}
use git_proxy_go.Pack.Objects.{
  get_pack_meta, git_object_type, skip_size, ofs_from, parse_ofs_delta_offset, base_length,
  parse_git_object_header, inflate_capped, closed, next_object, decompress, decompress_git_objects,
}
use git_proxy_go.Pack.Person.{
  is_blank_person_line, is_digit, match_tail, match_email, match_open, match_person,
  parse_person_line,
}
use git_proxy_go.Pack.Commit.{
  empty_commit_hash, header_key, missing, split_header, add_header, header_line, header_lines,
  get_parsed_data, commit_of, get_commit_data,
}
use git_proxy_go.Chain.Git
use git_proxy_go.Chain.Action.{
  set_names, new_action, add_step, set_commit, set_branch, set_allow_push, set_auto_approval,
  set_auto_rejection, may_continue, new_step, log, set_error, set_content, set_async_block,
}
use git_proxy_go.Chain.ParsePush.{
  ref_updates, ref_update, pack_data, record_update, record_commits, read_update, parse_pack,
  parse_push_into, parse_step, parse_push,
}
use git_proxy_go.Chain.Checks.{
  is_empty_branch, unique_strings, commit_messages, author_emails, failing, check_empty_branch,
  repo_step, check_repo_in_authorised_list, has_literal, try_patterns, is_message_allowed,
  scan_messages, check_commit_messages, compile_rule, compiled_rules, check_author_emails,
  is_user_push_allowed, permission, check_user_push_permission,
}
use git_proxy_go.Chain.Emails.{is_alnum, is_label, is_email, is_email_allowed}
use git_proxy_go.Chain.Clone.{
  mark_cleanup, is_idx, only_idx, new_names, convert_to_ssh_url, clone, finish_clone, pull_remote,
  idx_files, run_write_pack, written, write_pack,
}
use git_proxy_go.Chain.Inspect.{
  line_set, pack_commit, pack_commits, select, rev_range, hidden_verdict, diff_base, status_text,
  hook_verdict, verify_packs, run_hidden_commits, with_failure, check_hidden_commits, get_diff,
  hook_path, pre_receive,
}
use git_proxy_go.Chain.Gitleaks.{
  gitleaks_config, gitleaks_args, gitleaks_verdict, scan_with_gitleaks, gitleaks,
}
use git_proxy_go.Chain.Gate.{
  adopt, check_if_waiting_auth, service_ui_url, review_message, block_for_auth,
}
use git_proxy_go.Chain.Engine.{
  chain_kind, action_type, repo_path_of, run_chain, noted, clear_bare_clone, clean_up,
  push_processors, get_chain, parse_action, run_parsed, run_checks, audit, attempt_auto_approval,
  attempt_auto_rejection, auto_action, execute,
}
use git_proxy_go.Chain.Approval.{is_refused, Approved, Guards}
use git_proxy_go.Proxy.{
  forwarded, serve_http, run_request, answer, forward, resolve_target, send_error_response,
  buffer_pack_body, buffer_body, keep_body, read_limited, is_pack_post, is_valid_request,
  pkt_response,
}
use git_proxy_go.Tests.Fixture.{
  test_host, test_store, test_settings, test_request, inbound, whole, push_body,
}

pub push_type :
    (test_request (codes "receive-pack") (some push_body)).header (codes "Content-Type")
    ≡ codes "application/x-git-receive-pack-request"
unfolding str_eq
push_type = refl

pub execute_push :
    is_refused
      (execute test_host test_store test_settings tt tt
        (test_request (codes "receive-pack") (some push_body))).action
    ≡ false
unfolding Git.run Git.clone str_eq has_prefix trim_prefix contains member cut before split join
    trim_space fields to_lower show replace_first str_leb sort_strings read_digits hex_char hex4
    last_dot_git repo_part git_path_of process_url_path pick_name match_host match_scheme match_name
    process_git_url_for_name_and_org valid_git_request hex_digit parse_hex16 invalid_length judge
    classify packet_lines parse_packet_lines get_pack_meta git_object_type skip_size ofs_from
    parse_ofs_delta_offset base_length parse_git_object_header inflate_capped closed next_object
    decompress decompress_git_objects is_blank_person_line is_digit match_tail match_email
    match_open match_person parse_person_line empty_commit_hash header_key missing split_header
    add_header header_line header_lines get_parsed_data commit_of get_commit_data set_names
    new_action add_step set_commit set_branch set_allow_push set_auto_approval set_auto_rejection
    may_continue new_step log set_error set_content set_async_block ref_updates ref_update pack_data
    record_update record_commits read_update parse_pack parse_push_into parse_step parse_push
    is_empty_branch unique_strings commit_messages author_emails is_alnum is_label is_email
    is_email_allowed failing check_empty_branch repo_step check_repo_in_authorised_list has_literal
    try_patterns is_message_allowed scan_messages check_commit_messages compile_rule compiled_rules
    check_author_emails is_user_push_allowed permission check_user_push_permission mark_cleanup
    is_idx only_idx new_names convert_to_ssh_url clone finish_clone pull_remote idx_files
    run_write_pack written write_pack line_set pack_commit pack_commits select rev_range
    hidden_verdict diff_base status_text gitleaks_config gitleaks_args gitleaks_verdict hook_verdict
    verify_packs run_hidden_commits with_failure check_hidden_commits get_diff hook_path pre_receive
    scan_with_gitleaks gitleaks adopt check_if_waiting_auth service_ui_url review_message
    block_for_auth chain_kind action_type repo_path_of run_chain noted clear_bare_clone clean_up
    push_processors get_chain parse_action run_parsed run_checks audit attempt_auto_approval
    attempt_auto_rejection auto_action execute is_refused Approved Guards
execute_push = refl

pub execute_fetch :
    is_refused
      (execute test_host test_store test_settings tt tt
        (test_request (codes "upload-pack") none)).action
    ≡ false
unfolding Git.run Git.clone str_eq has_prefix trim_prefix contains member cut before split join
    trim_space fields to_lower show replace_first str_leb sort_strings read_digits hex_char hex4
    last_dot_git repo_part git_path_of process_url_path pick_name match_host match_scheme match_name
    process_git_url_for_name_and_org valid_git_request hex_digit parse_hex16 invalid_length judge
    classify packet_lines parse_packet_lines get_pack_meta git_object_type skip_size ofs_from
    parse_ofs_delta_offset base_length parse_git_object_header inflate_capped closed next_object
    decompress decompress_git_objects is_blank_person_line is_digit match_tail match_email
    match_open match_person parse_person_line empty_commit_hash header_key missing split_header
    add_header header_line header_lines get_parsed_data commit_of get_commit_data set_names
    new_action add_step set_commit set_branch set_allow_push set_auto_approval set_auto_rejection
    may_continue new_step log set_error set_content set_async_block ref_updates ref_update pack_data
    record_update record_commits read_update parse_pack parse_push_into parse_step parse_push
    is_empty_branch unique_strings commit_messages author_emails is_alnum is_label is_email
    is_email_allowed failing check_empty_branch repo_step check_repo_in_authorised_list has_literal
    try_patterns is_message_allowed scan_messages check_commit_messages compile_rule compiled_rules
    check_author_emails is_user_push_allowed permission check_user_push_permission mark_cleanup
    is_idx only_idx new_names convert_to_ssh_url clone finish_clone pull_remote idx_files
    run_write_pack written write_pack line_set pack_commit pack_commits select rev_range
    hidden_verdict diff_base status_text gitleaks_config gitleaks_args gitleaks_verdict hook_verdict
    verify_packs run_hidden_commits with_failure check_hidden_commits get_diff hook_path pre_receive
    scan_with_gitleaks gitleaks adopt check_if_waiting_auth service_ui_url review_message
    block_for_auth chain_kind action_type repo_path_of run_chain noted clear_bare_clone clean_up
    push_processors get_chain parse_action run_parsed run_checks audit attempt_auto_approval
    attempt_auto_rejection auto_action execute is_refused Approved Guards
execute_fetch = refl

pub serve_push :
    (serve_http test_host test_store test_settings [] tt tt
      (inbound (codes "receive-pack") push_body)).reply
    ≡ forwarded
        (codes "github.com")
        (codes "/github.com/o/r.git/git-receive-pack")
        (some (whole push_body))
unfolding Git.run Git.clone str_eq has_prefix trim_prefix contains member cut before split join
    trim_space fields to_lower show replace_first str_leb sort_strings read_digits hex_char hex4
    last_dot_git repo_part git_path_of process_url_path pick_name match_host match_scheme match_name
    process_git_url_for_name_and_org valid_git_request hex_digit parse_hex16 invalid_length judge
    classify packet_lines parse_packet_lines get_pack_meta git_object_type skip_size ofs_from
    parse_ofs_delta_offset base_length parse_git_object_header inflate_capped closed next_object
    decompress decompress_git_objects is_blank_person_line is_digit match_tail match_email
    match_open match_person parse_person_line empty_commit_hash header_key missing split_header
    add_header header_line header_lines get_parsed_data commit_of get_commit_data set_names
    new_action add_step set_commit set_branch set_allow_push set_auto_approval set_auto_rejection
    may_continue new_step log set_error set_content set_async_block ref_updates ref_update pack_data
    record_update record_commits read_update parse_pack parse_push_into parse_step parse_push
    is_empty_branch unique_strings commit_messages author_emails is_alnum is_label is_email
    is_email_allowed failing check_empty_branch repo_step check_repo_in_authorised_list has_literal
    try_patterns is_message_allowed scan_messages check_commit_messages compile_rule compiled_rules
    check_author_emails is_user_push_allowed permission check_user_push_permission mark_cleanup
    is_idx only_idx new_names convert_to_ssh_url clone finish_clone pull_remote idx_files
    run_write_pack written write_pack line_set pack_commit pack_commits select rev_range
    hidden_verdict diff_base status_text gitleaks_config gitleaks_args gitleaks_verdict hook_verdict
    verify_packs run_hidden_commits with_failure check_hidden_commits get_diff hook_path pre_receive
    scan_with_gitleaks gitleaks adopt check_if_waiting_auth service_ui_url review_message
    block_for_auth chain_kind action_type repo_path_of run_chain noted clear_bare_clone clean_up
    push_processors get_chain parse_action run_parsed run_checks audit attempt_auto_approval
    attempt_auto_rejection auto_action execute is_refused Approved Guards serve_http run_request
    answer forward resolve_target send_error_response buffer_pack_body buffer_body keep_body
    read_limited is_pack_post is_valid_request pkt_response
serve_push = refl

pub serve_fetch :
    (serve_http test_host test_store test_settings [] tt tt
      (inbound (codes "upload-pack") [])).reply
    ≡ forwarded (codes "github.com") (codes "/github.com/o/r.git/git-upload-pack") (some (whole []))
unfolding Git.run Git.clone str_eq has_prefix trim_prefix contains member cut before split join
    trim_space fields to_lower show replace_first str_leb sort_strings read_digits hex_char hex4
    last_dot_git repo_part git_path_of process_url_path pick_name match_host match_scheme match_name
    process_git_url_for_name_and_org valid_git_request hex_digit parse_hex16 invalid_length judge
    classify packet_lines parse_packet_lines get_pack_meta git_object_type skip_size ofs_from
    parse_ofs_delta_offset base_length parse_git_object_header inflate_capped closed next_object
    decompress decompress_git_objects is_blank_person_line is_digit match_tail match_email
    match_open match_person parse_person_line empty_commit_hash header_key missing split_header
    add_header header_line header_lines get_parsed_data commit_of get_commit_data set_names
    new_action add_step set_commit set_branch set_allow_push set_auto_approval set_auto_rejection
    may_continue new_step log set_error set_content set_async_block ref_updates ref_update pack_data
    record_update record_commits read_update parse_pack parse_push_into parse_step parse_push
    is_empty_branch unique_strings commit_messages author_emails is_alnum is_label is_email
    is_email_allowed failing check_empty_branch repo_step check_repo_in_authorised_list has_literal
    try_patterns is_message_allowed scan_messages check_commit_messages compile_rule compiled_rules
    check_author_emails is_user_push_allowed permission check_user_push_permission mark_cleanup
    is_idx only_idx new_names convert_to_ssh_url clone finish_clone pull_remote idx_files
    run_write_pack written write_pack line_set pack_commit pack_commits select rev_range
    hidden_verdict diff_base status_text gitleaks_config gitleaks_args gitleaks_verdict hook_verdict
    verify_packs run_hidden_commits with_failure check_hidden_commits get_diff hook_path pre_receive
    scan_with_gitleaks gitleaks adopt check_if_waiting_auth service_ui_url review_message
    block_for_auth chain_kind action_type repo_path_of run_chain noted clear_bare_clone clean_up
    push_processors get_chain parse_action run_parsed run_checks audit attempt_auto_approval
    attempt_auto_rejection auto_action execute is_refused Approved Guards serve_http run_request
    answer forward resolve_target send_error_response buffer_pack_body buffer_body keep_body
    read_limited is_pack_post is_valid_request pkt_response
serve_fetch = refl
