-- ===== src/Store/Invites.antt =====
-- internal/store/invites_store.go, over the queries of sqlcgen/invites.sql.go. The table is the list
-- of its rows in the order of insertion; scopes held as JSON are their list, times are nanoseconds.
-- `fold` is SQLite's NOCASE: emails are unique up to it.
pub mod Once
use hooks.Prelude.{
  ℕ, ◌+◌, String, List, [], ◌∷◌, ◌++◌, Bool, true, false, not, ◌&&◌, ◌||◌, Option, none, some, ltb,
  ◌==◌, if◌then◌else◌, Result, ok, err, keep, any, find?, length, string_eq, nat_eq,
}
use hooks.Store.Rows.{StoreError, not_found, constraint_failed, set_where, delete_where}
use hooks.Store.Users.{User, Role, admin, user_is}

pub record Invite : Type 0 where
  pub code : String
  pub role : Role
  pub default_scopes : List String
  pub created_by_user_id : Option String
  pub bootstrap : Bool
  pub created_at : ℕ
  pub expires_at : Option ℕ
  pub consumed_at : Option ℕ
  pub consumed_by_user_id : Option String

abbrev pub InviteTable : Type 0
InviteTable = List Invite

-- The tables that a signup touches.
pub record InviteDb : Type 0 where
  pub invites : InviteTable
  pub users : List User

pub data InviteError : Type 0 where
  empty_code refused no_such_invite email_in_use invite_consumed : InviteError

abbrev pub code_is : String → Invite → Bool
code_is code i = i.code == code

abbrev pub is_unconsumed : Invite → Bool
is_unconsumed i = elim i.consumed_at [ none ↦ true | some _ ↦ false ]

abbrev pub known_user : List User → Option String → Bool
known_user users none = true
known_user users (some id) = any (user_is id) users

-- What the constraints of the table refuse.
abbrev pub invite_conflicts : Invite → InviteDb → Bool
invite_conflicts i db =
    any (code_is i.code) db.invites
    || not (known_user db.users i.created_by_user_id)
    || not (known_user db.users i.consumed_by_user_id)

-- `InsertInvite`, of an invite whose time of creation is set
unfoldable pub insert_invite : Invite → InviteDb → Result InviteError Unit × InviteDb
insert_invite i db =
    if i.code == ""
    then (err empty_code, db)
    else if invite_conflicts i db
    then (err refused, db)
    else (ok tt, record db { invites = db.invites ++ i ∷ [] })

unfoldable pub get_invite_by_code : String → InviteTable → Option Invite
get_invite_by_code code = find? (code_is code)

abbrev pub consumed : String → ℕ → Invite → Invite
consumed by now i = record i { consumed_at = some now; consumed_by_user_id = some by }

abbrev pub redeems : String → Invite → Bool
redeems code i = code_is code i && is_unconsumed i

abbrev pub open_bootstrap : Invite → Bool
open_bootstrap i = i.bootstrap && is_unconsumed i

-- `MarkInviteConsumed`
unfoldable pub mark_invite_consumed :
    String → String → ℕ → InviteDb → Result InviteError Unit × InviteDb
mark_invite_consumed code by now db =
    if not (any (redeems code) db.invites)
    then (err no_such_invite, db)
    else if not (any (user_is by) db.users)
    then (err refused, db)
    else (ok tt, record db { invites = set_where (redeems code) (consumed by now) db.invites })

-- `MarkBootstrapInvitesConsumed`, with the count it reports; `by` is a user of the table.
unfoldable pub mark_bootstrap_invites_consumed : String → ℕ → InviteTable → InviteTable × ℕ
mark_bootstrap_invites_consumed by now rows =
    (set_where open_bootstrap (consumed by now) rows, length (keep open_bootstrap rows))

-- `DeleteInvite`
unfoldable pub delete_invite : String → InviteTable → Result StoreError Unit × InviteTable
delete_invite code = delete_where (redeems code)

-- Whether an invite that was not consumed can still be used.
abbrev pub is_fresh_invite : ℕ → Invite → Bool
is_fresh_invite now i = is_unconsumed i && (elim i.expires_at [ none ↦ true | some e ↦ ltb now e ])

abbrev pub bootstrap_invite : String → ℕ → ℕ → Invite
bootstrap_invite code ttl now = record {
  code = code;
  role = admin;
  default_scopes = [];
  created_by_user_id = none;
  bootstrap = true;
  created_at = now;
  expires_at = some (now + ttl);
  consumed_at = none;
  consumed_by_user_id = none;
}

-- The insertion at the end of `EnsureBootstrapInvite`, into the rows that are left.
abbrev pub insert_bootstrap :
    Invite → InviteTable → InviteTable → Result InviteError Invite × InviteTable
insert_bootstrap i left rows =
    if any (code_is i.code) left then (err refused, rows) else (ok i, left ++ i ∷ [])

abbrev pub ensure_from :
    String → ℕ → ℕ → InviteTable → Option Invite → Result InviteError Invite × InviteTable
ensure_from code ttl now rows none = insert_bootstrap (bootstrap_invite code ttl now) rows rows
ensure_from code ttl now rows (some i) =
    if is_fresh_invite now i
    then (ok i, rows)
    else insert_bootstrap (bootstrap_invite code ttl now) (keep (λ x. not x.bootstrap) rows) rows

-- `EnsureBootstrapInvite`; a path that returns an error rolls the transaction back.
unfoldable pub ensure_bootstrap_invite :
    String → ℕ → ℕ → InviteTable → Result InviteError Invite × InviteTable
ensure_bootstrap_invite code ttl now rows =
    ensure_from code ttl now rows (find? (λ i. i.bootstrap) rows)

abbrev pub email_taken : (String → String) → String → List User → Bool
email_taken fold email = any λ u. fold u.email == fold email

-- `SignupTx`; a path that returns an error rolls the transaction back.
unfoldable pub signup_tx :
    (String → String) → String → User → ℕ → InviteDb → Result InviteError Unit × InviteDb
unfolding mark_bootstrap_invites_consumed
signup_tx fold code u now db =
    if any (user_is u.id) db.users
    then (err refused, db)
    else if email_taken fold u.email db.users
    then (err email_in_use, db)
    else if not (any (redeems code) db.invites)
    then (err invite_consumed, db)
    else (
      ok tt,
      record {
        invites =
            (mark_bootstrap_invites_consumed u.id now
              (set_where (redeems code) (consumed u.id now) db.invites)).0;
        users = db.users ++ u ∷ [];
      },
    )
