-- ===== src/Http/Reading.antt =====
-- The reading loop of the polling callback of src/http/http.c.
use libytdl.Base.{Bool, false, not, List, [], ◌∷◌, Bytes}
use libytdl.Http.{Openssl, Reads, more, last, failed, is_retry}

-- The texts that are read, in order.
abbrev pub texts : Reads → List Bytes
texts (more s rest) = s ∷ texts rest
texts (last s) = s ∷ []
texts (failed err is_closed) = []

-- The failure at the end, if there is one.
abbrev pub fails : Openssl → Reads → Bool
fails ssl (more s rest) = fails ssl rest
fails ssl (last s) = false
fails ssl (failed err is_closed) = not (is_retry ssl err)
