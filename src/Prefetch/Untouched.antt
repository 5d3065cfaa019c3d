-- ===== src/Prefetch/Untouched.antt =====
-- What staging leaves as it was: all of the cache that concerns speculation.
use mathlib.Core.Path.{subst}
use meitte.Base.{ℕ, ◌≡◌, refl, sym, ◌∙◌}
use meitte.Cache.{Shape, Cache}
use meitte.Cache.Entry.{release_entry_pages}
use meitte.Cache.Touch.{OnlyOs}
use meitte.Prefetch.Cached.{SameReads, trans-SameReads, refl-SameReads}

-- A cache that differs from another in nothing that concerns speculation.
pub record Untouched (c d : Cache) : Type 0 where
  pub same : SameReads c d
  pub same_done : d.spec_done ≡ c.spec_done
  pub same_valid : d.cvalid ≡ c.cvalid
  pub same_spec : d.cspec ≡ c.cspec
  pub same_links : d.links ≡ c.links
  pub same_resident : d.cresident ≡ c.cresident

pub refl-Untouched : (c : Cache) → Untouched c c
refl-Untouched c = record {
  same = refl-SameReads c;
  same_done = refl;
  same_valid = refl;
  same_spec = refl;
  same_links = refl;
  same_resident = refl;
}

pub trans-Untouched : {c d e : Cache} → Untouched c d → Untouched d e → Untouched c e
trans-Untouched a b = record {
  same = trans-SameReads a.same b.same;
  same_done = b.same_done ∙ a.same_done;
  same_valid = b.same_valid ∙ a.same_valid;
  same_spec = b.same_spec ∙ a.same_spec;
  same_links = b.same_links ∙ a.same_links;
  same_resident = b.same_resident ∙ a.same_resident;
}

pub OnlyOs-Untouched : (c d : Cache) → OnlyOs c d → Untouched c d
OnlyOs-Untouched c d h = subst (Untouched c) (sym h) (record {
  same = record {
    same_jobs = refl;
    same_next = refl;
    same_gen = refl;
    same_touched = refl;
    same_remaining = refl;
  };
  same_done = refl;
  same_valid = refl;
  same_spec = refl;
  same_links = refl;
  same_resident = refl;
})

pub release_entry_pages-Untouched :
    (s : Shape) (id : ℕ) (c : Cache) → Untouched c (release_entry_pages s id c)
unfolding release_entry_pages
release_entry_pages-Untouched s id c = OnlyOs-Untouched c (release_entry_pages s id c) refl
