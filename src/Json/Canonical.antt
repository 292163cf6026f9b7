-- ===== src/Json/Canonical.antt =====
-- Reading back the parts of a document.
use eventful.Base.{String, some, List, [], ◌∷◌, ◌≡◌, refl, ap}
use eventful.Event.{cons, text}
use eventful.Json.{canonical, canonical_all, texts, read_texts}

pub read_texts-texts : (ts : List String) → read_texts (texts ts) ≡ some ts
unfolding read_texts texts
read_texts-texts [] = refl
read_texts-texts (t ∷ ts) = rw (read_texts-texts ts)

pub canonical_all-texts : (ts : List String) → canonical_all (texts ts) ≡ texts ts
unfolding canonical texts
canonical_all-texts [] = refl
canonical_all-texts (t ∷ ts) = ap (cons (text t)) (canonical_all-texts ts)
