-- ===== src/Pack/Commit.antt =====
-- Commit objects (commitHeader, getParsedData, getCommitData).
use git_proxy_go.Base.{
  not, none, some, List, [], ◌∷◌, ◌++◌, Str, codes, str_eq, if◌then◌else◌, is_empty, cut, split,
  join, trim_space, Result, ok, err, ◌>>=◌,
}
use git_proxy_go.Model.{CommitData}
use git_proxy_go.Pack.Objects.{GitObject, is_commit}
use git_proxy_go.Pack.Person.{PersonLine, blank, is_blank_person_line, parse_person_line}

-- 40 zeros.
unfoldable pub empty_commit_hash : Str
empty_commit_hash = codes "0000000000000000000000000000000000000000"

pub record CommitHeader : Type 0 where
  pub tree : Str
  pub parents : List Str
  pub author : PersonLine
  pub committer : PersonLine

abbrev pub no_header : CommitHeader
no_header = record { tree = []; parents = []; author = blank; committer = blank }

pub data HeaderKey : Type 0 where
  tree parent author committer other : HeaderKey

-- The `switch key`.
unfoldable pub header_key : Str → HeaderKey
header_key key =
    if str_eq key (codes "tree")
    then HeaderKey.tree
    else if str_eq key (codes "parent")
    then parent
    else if str_eq key (codes "author")
    then HeaderKey.author
    else if str_eq key (codes "committer")
    then HeaderKey.committer
    else other

unfoldable pub missing : CommitHeader → List Str
missing h =
    (if is_empty h.tree then codes "tree" ∷ [] else [])
    ++ ((if is_blank_person_line h.author then codes "author" ∷ [] else [])
        ++ (if is_blank_person_line h.committer then codes "committer" ∷ [] else []))

-- The lines before the first empty one, and those behind it.
unfoldable pub split_header : List Str → List Str × List Str
split_header [] = ([], [])
split_header ([] ∷ rest) = ([], rest)
split_header ((c ∷ l) ∷ rest) = ((c ∷ l) ∷ (split_header rest).0, (split_header rest).1)

first_or : List Str → Str → Str
first_or [] d = d
first_or (p ∷ ps) d = p

module _ (quote : Str → Str) where
  unfoldable pub add_header : CommitHeader → HeaderKey → Str → Result CommitHeader
  add_header h HeaderKey.tree value =
      if not (is_empty h.tree)
      then err (codes "multiple tree lines found in commit")
      else ok (record h { tree = trim_space value })
  add_header h parent value = ok (record h { parents = h.parents ++ trim_space value ∷ [] })
  add_header h HeaderKey.author value =
      if not (is_blank_person_line h.author)
      then err (codes "multiple author lines found in commit")
      else parse_person_line quote value >>= λ p. ok (record h { author = p })
  add_header h HeaderKey.committer value =
      if not (is_blank_person_line h.committer)
      then err (codes "multiple committer lines found in commit")
      else parse_person_line quote value >>= λ p. ok (record h { committer = p })
  add_header h other value = ok h

  -- One header line; a line with no space is passed over.
  unfoldable pub header_line : CommitHeader → Str → Result CommitHeader
  unfolding header_key add_header
  header_line h line = elim (cut b' ' line) [
    | none ↦ ok h
    | some p ↦ add_header h (header_key p.0) p.1
  ]

  unfoldable pub header_lines : CommitHeader → List Str → Result CommitHeader
  header_lines h [] = ok h
  header_lines h (line ∷ rest) = header_line h line >>= λ g. header_lines g rest

  unfoldable pub get_parsed_data : List Str → Result CommitHeader
  unfolding header_lines missing
  get_parsed_data lines = header_lines no_header lines >>= λ h. elim (missing h) [
    | [] ↦ ok h
    | m ∷ ms ↦ err (codes "invalid commit data: missing " ++ join (codes ", ") (m ∷ ms))
  ]

  unfoldable pub commit_of : Str → Result CommitData
  unfolding split_header first_or
  commit_of content =
      let parts = split_header (split 10 content) in
      get_parsed_data parts.0 >>= λ hdr. ok (record {
        tree = hdr.tree;
        parent = first_or hdr.parents empty_commit_hash;
        author = hdr.author.name;
        committer = hdr.committer.name;
        author_email = hdr.author.email;
        committer_email = hdr.committer.email;
        commit_timestamp = hdr.committer.timestamp;
        message = trim_space (join (10 ∷ []) parts.1);
      })

  unfoldable pub get_commit_data : List GitObject → Result (List CommitData)
  unfolding commit_of
  get_commit_data [] = ok []
  get_commit_data (obj ∷ rest) =
      let later = get_commit_data rest in
      if is_commit obj.type_name
      then (do c ← commit_of obj.content; cs ← later; ok (c ∷ cs))
      else later
