-- ===== src/Api/Scopes.antt =====
-- backend/app/api/scopes.py. `new_id` is the id that the table gives a row; `order_by(name)` of the list
-- and the times of a row are left out.
use scan_ledger.Prelude.{
  Bool, not, ◌&&◌, none, some, List, [], ◌∷◌, ◌++◌, String, string_eq, ◌==◌, any, if◌then◌else◌,
  Outcome, returns, raises,
}
use scan_ledger.Db.{ScopeProfileRow, Database, find_scope, update_where, delete_where}
use scan_ledger.Guard.Scope.{IpReader, ScopeValidationError, create}

-- `ScopeCreate` of backend/app/models/api.py
pub record ScopeCreate : Type 0 where
  pub name : String
  pub entries : List String
  pub allow_cgnat : Bool
  pub allow_link_local : Bool

pub data ScopeError : Type 0 where
  scope_invalid : ScopeValidationError → ScopeError
  name_exists scope_not_found scope_in_use : String → ScopeError
  -- the unique constraint on the name, which the database raises
  integrity_error : String → ScopeError

abbrev pub row_of : String → ScopeCreate → ScopeProfileRow
row_of id payload = record {
  id = id;
  name = payload.name;
  entries = payload.entries;
  allow_cgnat = payload.allow_cgnat;
  allow_link_local = payload.allow_link_local;
}

module _ (reader : IpReader) where
  -- `_validate`
  unfoldable pub validate : ScopeCreate → Outcome ScopeError (Unit {0})
  validate payload =
      elim (create reader payload.name payload.entries payload.allow_cgnat
        payload.allow_link_local) [ raises x ↦ raises (scope_invalid x) | returns _ ↦ returns tt ]

  unfoldable pub create_scope :
      String → ScopeCreate → Database → Outcome ScopeError ScopeProfileRow × Database
  unfolding validate
  create_scope new_id payload db = elim (validate payload) [
    | raises x ↦ (raises x, db)
    | returns _ ↦
        if any db.scopes (λ s. s.name == payload.name)
        then (raises (name_exists payload.name), db)
        else (
          returns (row_of new_id payload),
          record db { scopes = db.scopes ++ row_of new_id payload ∷ [] },
        )
  ]

  unfoldable pub update_scope :
      String → ScopeCreate → Database → Outcome ScopeError ScopeProfileRow × Database
  unfolding validate find_scope
  update_scope scope_id payload db = elim (validate payload) [
    | raises x ↦ (raises x, db)
    | returns _ ↦ elim (find_scope db.scopes scope_id) [
      | none ↦ (raises (scope_not_found scope_id), db)
      | some row ↦
          if any db.scopes (λ s. s.name == payload.name && not (s.id == scope_id))
          then (raises (integrity_error payload.name), db)
          else (
            returns (row_of scope_id payload),
            record db {
              scopes =
                  update_where (λ s. s.id == scope_id) (λ _. row_of scope_id payload) db.scopes;
            },
          )
    ]
  ]

unfoldable pub delete_scope : String → Database → Outcome ScopeError (Unit {0}) × Database
unfolding find_scope
delete_scope scope_id db = elim (find_scope db.scopes scope_id) [
  | none ↦ (raises (scope_not_found scope_id), db)
  | some row ↦
      if any db.scans (λ r. r.scope_id == scope_id)
      then (raises (scope_in_use scope_id), db)
      else (returns tt, record db { scopes = delete_where (λ s. s.id == scope_id) db.scopes })
]
