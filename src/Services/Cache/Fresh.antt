-- ===== src/Services/Cache/Fresh.antt =====
-- What backend/app/services/cache.py gives back of what was stored.
use scan_ledger.Prelude.{
  ℕ, ◌+◌, ◌*◌, ◌≡◌, refl, Option, none, some, List, [], ◌∷◌, arith, String, string_eq, ◌==◌, leb,
  if◌then◌else◌, beq_refl, beq_sound,
}
use scan_ledger.Db.{CacheEntryRow}
use scan_ledger.Services.Cache.{
  is_cacheable, find_entry, get_cached, write_entry, ttl_of, stored_row, store,
}

find_entry-write_entry :
    (r : CacheEntryRow) (rows : List CacheEntryRow) (key : String)
    → find_entry (write_entry r rows) key
      ≡ (if r.cache_key == key then some r else find_entry rows key)
unfolding find_entry write_entry
find_entry-write_entry r [] key = refl
find_entry-write_entry r (q ∷ rows) key = ground (
  arith,
  find_entry-write_entry r rows key,
  beq_sound q.cache_key r.cache_key,
  beq_sound r.cache_key key,
  beq_sound q.cache_key key,
  beq_refl key,
)

module _ (key source status : String) (normalized response : Option String) (ttl : Option ℕ)
    (now : ℕ) (rows : List CacheEntryRow) where
  -- After `store`, a look-up of any key at any time: a status that is not cacheable leaves every answer
  -- as it was; otherwise the key that was stored gives back what was stored until its time to live has
  -- passed, and nothing from then on, and every other key answers as before.
  pub get_cached-store :
      (k : String) (moment : ℕ)
      → get_cached (store key source status normalized response ttl now rows).1 k moment ≡ (
          if is_cacheable status
          then (if key == k
              then (if leb (now + ttl_of status ttl * 1000) moment
                  then none
                  else some (record {
                    status = status;
                    normalized = normalized;
                    retrieved_at = now;
                    expires_at = now + ttl_of status ttl * 1000;
                  }))
              else get_cached rows k moment)
          else get_cached rows k moment)
  unfolding get_cached store
  get_cached-store k moment = ground (
    arith,
    find_entry-write_entry (stored_row key source status normalized response ttl now) rows k,
  )
