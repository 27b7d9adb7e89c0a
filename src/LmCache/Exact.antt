-- ===== src/LmCache/Exact.antt =====
-- lmrs/lmcache.py: a purge takes what its namespace and session bind, and nothing else.
use vvz_lmrs.Prelude.{ℕ, String, Bool, not, ◌≡◌, List, filter, Result, ok, err}
use vvz_lmrs.LmCache.Disk.{Node}
use vvz_lmrs.LmCache.Purge.{Spares}

-- What a purge leaves: when it returns, all that is not bound and nothing else; when it raises, at
-- least all that is not bound.
abbrev pub IsPurged : (Node → Bool) → List Node → Result (String × ℕ) × List Node → Type 0
IsPurged bound nodes (ok _, left) = left ≡ filter (λ n. not (bound n)) nodes
IsPurged bound nodes (err _, left) = Spares bound nodes left
