-- ===== src/Services/Cache.antt =====
-- backend/app/services/cache.py: the cache of provider responses, on the rows of its table. Times are
-- in milliseconds; a JSON value is its text.
pub mod Fresh
use scan_ledger.Prelude.{
  ℕ, ◌+◌, ◌-◌, ◌*◌, ◌≡◌, Bool, true, false, Option, none, some, List, [], ◌∷◌, String, string_eq,
  ◌==◌, ltb, leb, any, length, count_if, if◌then◌else◌, Dict, get, put,
}
use scan_ledger.Db.{CacheEntryRow}

abbrev pub schema_version : ℕ
schema_version = 1

abbrev pub default_ttl_seconds : ℕ
default_ttl_seconds = 24 * 60 * 60

abbrev pub negative_ttl_seconds : ℕ
negative_ttl_seconds = 60 * 60

abbrev pub non_cacheable_statuses : List String
non_cacheable_statuses = "auth_failed" ∷ "malformed" ∷ "rate_limited" ∷ "error" ∷ []

abbrev pub is_cacheable : String → Bool
is_cacheable status = if any non_cacheable_statuses (λ s. status == s) then false else true

pub record CachedResponse : Type 0 where
  pub status : String
  pub normalized : Option String
  pub retrieved_at : ℕ
  pub expires_at : ℕ

-- `session.get(CacheEntryRow, cache_key)`
unfoldable pub find_entry : List CacheEntryRow → String → Option CacheEntryRow
find_entry [] key = none
find_entry (r ∷ rows) key =
    let rest = find_entry rows key in if r.cache_key == key then some r else rest

abbrev pub response_of : CacheEntryRow → CachedResponse
response_of r = record {
  status = r.status;
  normalized = r.normalized;
  retrieved_at = r.retrieved_at;
  expires_at = r.expires_at;
}

-- `ResponseCache.get`
unfoldable pub get_cached : List CacheEntryRow → String → ℕ → Option CachedResponse
get_cached rows key now = elim (find_entry rows key) [
  | none ↦ none
  | some r ↦ if leb r.expires_at now then none else some (response_of r)
]

-- What `store` writes: the row of the key is overwritten, and a missing one is added.
unfoldable pub write_entry : CacheEntryRow → List CacheEntryRow → List CacheEntryRow
write_entry r [] = r ∷ []
write_entry r (q ∷ rows) =
    let rest = write_entry r rows in if q.cache_key == r.cache_key then r ∷ rows else q ∷ rest

-- The time to live, in seconds.
abbrev pub ttl_of : String → Option ℕ → ℕ
ttl_of status none = if status == "empty" then negative_ttl_seconds else default_ttl_seconds
ttl_of status (some ttl) = ttl

abbrev pub stored_row :
    String → String → String → Option String → Option String → Option ℕ → ℕ → CacheEntryRow
stored_row key source status normalized response ttl_seconds now = record {
  cache_key = key;
  source = source;
  schema_version = schema_version;
  status = status;
  normalized = normalized;
  response = response;
  retrieved_at = now;
  expires_at = now + ttl_of status ttl_seconds * 1000;
}

-- `ResponseCache.store`
unfoldable pub store :
    String
    → String
    → String
    → Option String
    → Option String
    → Option ℕ
    → ℕ
    → List CacheEntryRow
    → Bool × List CacheEntryRow
unfolding write_entry
store key source status normalized response ttl_seconds now rows =
    if is_cacheable status
    then (true, write_entry (stored_row key source status normalized response ttl_seconds now) rows)
    else (false, rows)

pub record CacheSummary : Type 0 where
  pub entries : ℕ
  pub fresh : ℕ
  pub expired : ℕ
  pub by_source : Dict String ℕ

abbrev or_zero : Option ℕ → ℕ
or_zero none = 0
or_zero (some n) = n

-- The loop that counts the rows of each source.
unfoldable pub count_sources : Dict String ℕ → List CacheEntryRow → Dict String ℕ
unfolding get put
count_sources counts [] = counts
count_sources counts (r ∷ rows) =
    count_sources (put counts r.source (or_zero (get counts r.source) + 1)) rows

unfoldable pub summary : ℕ → List CacheEntryRow → CacheSummary
unfolding count_sources
summary now rows =
    let fresh = count_if rows (λ r. ltb now r.expires_at) in
    record {
      entries = length rows;
      fresh = fresh;
      expired = length rows - fresh;
      by_source = count_sources [] rows;
    }

unfoldable pub clear : List CacheEntryRow → ℕ × List CacheEntryRow
clear rows = (length rows, [])
