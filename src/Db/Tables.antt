-- ===== src/Db/Tables.antt =====
-- The rows of the SQLite schema, and what the statements do with a list of rows. The JSON text in a
-- column is kept as the value that it decodes to. That of a push is Db/Json.antt's; the lists of a
-- repository and the keys of a user are read from JSON, which gives UTF-8 back unchanged.
use git_proxy_go.Base.{ℕ, Bool, Option, none, some, List, [], ◌∷◌, Str, if◌then◌else◌}
use git_proxy_go.Model.{Push, Repo, User}

-- The promoted columns of `pushes`, and in `value` what the column `data` decodes to.
pub record PushRow : Type 0 where
  pub id : Str
  pub kind : Str
  pub method : Str
  pub timestamp : ℕ
  pub project : Str
  pub repo_name : Str
  pub url : Str
  pub repo : Str
  pub branch : Str
  pub error : Bool
  pub blocked : Bool
  pub allow_push : Bool
  pub authorised : Bool
  pub canceled : Bool
  pub rejected : Bool
  pub auto_approved : Bool
  pub auto_rejected : Bool
  pub commit_from : Str
  pub commit_to : Str
  pub push_user : Str
  pub value : Push

pub record Database : Type 0 where
  pub users : List User
  pub repos : List Repo
  pub pushes : List PushRow

module _ {ℓ} {A : Type ℓ} where
  -- SELECT … WHERE, the first row.
  unfoldable pub find : (A → Bool) → List A → Option A
  find p [] = none
  find p (x ∷ xs) = if p x then some x else find p xs

  -- SELECT … WHERE, in table order.
  unfoldable pub where_rows : (A → Bool) → List A → List A
  where_rows p [] = []
  where_rows p (x ∷ xs) = let rest = where_rows p xs in if p x then x ∷ rest else rest

  -- UPDATE … WHERE.
  unfoldable pub update_where : (A → Bool) → (A → A) → List A → List A
  update_where p f [] = []
  update_where p f (x ∷ xs) = (if p x then f x else x) ∷ update_where p f xs

  -- DELETE … WHERE.
  unfoldable pub delete_where : (A → Bool) → List A → List A
  delete_where p [] = []
  delete_where p (x ∷ xs) = let rest = delete_where p xs in if p x then rest else x ∷ rest

  unfoldable pub insert_by : (A → A → Bool) → A → List A → List A
  insert_by first? x [] = x ∷ []
  insert_by first? x (y ∷ ys) = if first? x y then x ∷ y ∷ ys else y ∷ insert_by first? x ys

  -- ORDER BY: rows that tie keep the order of the table.
  unfoldable pub order_by : (A → A → Bool) → List A → List A
  unfolding insert_by
  order_by first? [] = []
  order_by first? (x ∷ xs) = insert_by first? x (order_by first? xs)
