-- ===== src/Rmrf/Confined.antt =====
-- What rmrf can change at all, whatever it finds in the file system.
use auxiliary_tool.Common.{
  ℕ, zero, suc, ◌<◌, ◌≡◌, ◌≢◌, inl, inr, refl, sym, subst, ◌∙◌, Bool, true, false, Option, none,
  some, List, [], ◌∷◌, ◌++◌, Bytes, bytes_eq, ℤ, pos, minus_one, if◌then◌else◌, length, All,
  Bool-cases, Option-cases, arith,
}
use auxiliary_tool.FileSystem.{FileSystem, regular, directory, special}
use auxiliary_tool.FileSystem.Keys.{Key, Under-of_snoc, Apart-snoc}
use auxiliary_tool.FileSystem.Laws.{
  IsName, below, IsLawful, IsEntry, ListsNames, Same, unlink-Same, rmdir-Same,
}
use auxiliary_tool.PathName.{dirname, basename}
use auxiliary_tool.PathName.Inner.{dirname-basename_inner}
use auxiliary_tool.StdString.{npos}
use auxiliary_tool.Rmrf.{star, is_skipped, is_hidden, remove_each, remove_node, rmrf}

-- The path that a call works on.
abbrev pub target : Bytes → Bytes → Bytes → Bytes
target path dir base = if bytes_eq base star then dir else path

module _ (fs : FileSystem) (L : IsLawful fs) where
  Same-refl : (s : fs.State) (k : Key) → Same fs L s s k
  Same-refl s k = record { stats = λ q u. refl; listings = λ q a. refl }

  Same-trans :
      (s s' s'' : fs.State) (k : Key) → Same fs L s s' k → Same fs L s' s'' k → Same fs L s s'' k
  Same-trans s s' s'' k a b = record {
    stats = λ q u. b.stats q u ∙ a.stats q u;
    listings = λ q u. b.listings q u ∙ a.listings q u;
  }

  -- What changes an entry at most, changes its directory at most.
  Same-child :
      (s s' : fs.State) (k : Key) (n : Bytes) → Same fs L s s' (k ++ n ∷ []) → Same fs L s s' k
  Same-child s s' k n a = record {
    stats = λ q u. a.stats q (λ v. u (Under-of_snoc k n (L.resolve q) v));
    listings = λ q u. let v = Apart-snoc (L.resolve q) k n (u.1, u.0) in a.listings q (v.1, v.0);
  }

  -- The entries over which the loop does not pass have names.
  entry-IsName :
      (all : Bool) (p n : Bytes)
      → IsEntry p n
      → is_skipped all n ≡ false
      → IsName n × (length (below p n) < npos)
  unfolding is_skipped is_hidden
  entry-IsName all p n (inr (inr name)) h = name
  entry-IsName true p n (inl e) h = absurd (ground arith)
  entry-IsName false p n (inl e) h = absurd (ground arith)
  entry-IsName true p n (inr (inl e)) h = absurd (ground arith)
  entry-IsName false p n (inr (inl e)) h = absurd (ground arith)

  -- A call on an entry of a directory changes that directory at most.
  abbrev Confines : (Bytes → fs.State → Option (ℤ × fs.State)) → Type 0
  Confines remove =
      (p n : Bytes) (s s' : fs.State) (r : ℤ)
      → p ≢ []
      → IsName n
      → length (below p n) < npos
      → remove (below p n) s ≡ some (r, s')
      → Same fs L s s' (L.resolve p)

  module _ (remove : Bytes → fs.State → Option (ℤ × fs.State)) (child : Confines remove)
      (all : Bool) (p : Bytes) where
    remove_each-Same :
        (listing : List Bytes) (s s' : fs.State)
        → p ≢ []
        → All (IsEntry p) listing
        → remove_each fs remove all p listing s ≡ some s'
        → Same fs L s s' (L.resolve p)
    unfolding remove_each
    remove_each-Same [] s s' np entries h =
        subst (λ t. Same fs L s t (L.resolve p)) (cc) (Same-refl s (L.resolve p))
    remove_each-Same (n ∷ listing) s s' np (e, entries) h = elim (Bool-cases (is_skipped all n)) [
      | inl skip ↦
          let after : remove_each fs remove all p (n ∷ listing) s
              ≡ remove_each fs remove all p listing s =
            rw (skip, remove_each) in
          remove_each-Same listing s s' np entries (sym after ∙ h)
      | inr keep ↦
          let (name, fits) = entry-IsName all p n e keep in
          elim (Option-cases (remove (below p n) s)) [
            | inl stuck ↦
                let after : remove_each fs remove all p (n ∷ listing) s ≡ none =
                  rw (keep, remove_each) (rw (stuck, remove_each)) in
                absurd (ground (arith, sym after ∙ h))
            | inr ((r, t), done) ↦
                let after : remove_each fs remove all p (n ∷ listing) s
                    ≡ remove_each fs remove all p listing t =
                  rw (keep, remove_each) (rw (done, remove_each)) in
                Same-trans s t s' (L.resolve p) (child p n s t r np name fits done)
                  (remove_each-Same listing t s' np entries (sym after ∙ h))
          ]
    ]

    ends :
        (s t s' : fs.State) (a r : ℤ) (k : Key)
        → ◌≡◌ {A = Option (ℤ × fs.State)} (some (a, t)) (some (r, s'))
        → Same fs L s t k
        → Same fs L s s' k
    ends s t s' a r k e same = subst (λ u. Same fs L s u k) (cc) same

    directory_path : (s : fs.State) → fs.stat s p ≡ some directory → p ≢ []
    directory_path s kind np =
        let none_there : fs.stat s p ≡ none =
          subst (λ q. fs.stat s q ≡ none) (sym np) (L.stat-nil s) in
        cc

    -- rmdir, which is left out for "*".
    last_step :
        (star_base : Bool) (s t : fs.State)
        → Same fs L s t (L.resolve p)
        → Same fs L s (if star_base then t else fs.rmdir t p) (L.resolve p)
    last_step true s t same = same
    last_step false s t same =
        Same-trans s t (fs.rmdir t p) (L.resolve p) same (rmdir-Same fs L t p)

    remove_node-Same :
        ListsNames fs
        → (s s' : fs.State) (r : ℤ) → remove_node fs remove all p s ≡ some (r, s')
        → Same fs L s s' (L.resolve p)
    unfolding remove_node
    remove_node-Same N s s' r h = elim (Bool-cases (fs.access s p)) [
      | inr missing ↦
          let after : remove_node fs remove all p s ≡ some (pos 0, s) = rw missing in
          ends s s s' (pos 0) r (L.resolve p) (sym after ∙ h) (Same-refl s (L.resolve p))
      | inl there ↦ elim (Option-cases (fs.stat s p)) [
        | inl fails ↦
            let after : remove_node fs remove all p s ≡ some (minus_one, s) =
              rw there (rw (fails, remove_node)) in
            ends s s s' minus_one r (L.resolve p) (sym after ∙ h) (Same-refl s (L.resolve p))
        | inr (special, kind) ↦
            let after : remove_node fs remove all p s ≡ some (pos 0, s) =
              rw there (rw (kind, remove_node)) in
            ends s s s' (pos 0) r (L.resolve p) (sym after ∙ h) (Same-refl s (L.resolve p))
        | inr (regular n, kind) ↦
            let after : remove_node fs remove all p s ≡ some (pos 0, fs.unlink s p) =
              rw there (rw (kind, remove_node)) in
            ends s (fs.unlink s p) s' (pos 0) r (L.resolve p) (sym after ∙ h) (unlink-Same fs L s p)
        | inr (directory, kind) ↦ elim (Option-cases (fs.readdir s p)) [
          | inl locked ↦
              let after : remove_node fs remove all p s ≡ none =
                rw there (rw (kind, remove_node) (rw (locked, remove_node))) in
              absurd (ground (arith, sym after ∙ h))
          | inr (listing, listed) ↦ elim (Option-cases (remove_each fs remove all p listing s)) [
            | inl stuck ↦
                let after : remove_node fs remove all p s ≡ none =
                  rw there
                    (rw (kind, remove_node) (rw (listed, remove_node) (rw (stuck, remove_node)))) in
                absurd (ground (arith, sym after ∙ h))
            | inr (t, done) ↦
                let after : remove_node fs remove all p s
                    ≡ some (pos 0, if all then t else fs.rmdir t p) =
                  rw there
                    (rw (kind, remove_node) (rw (listed, remove_node) (rw (done, remove_node)))) in
                let same =
                  remove_each-Same listing s t (directory_path s kind) (N.lists s p listing listed)
                    done in
                ends s (if all then t else fs.rmdir t p) s' (pos 0) r (L.resolve p) (sym after ∙ h)
                  (last_step all s t same)
          ]
        ]
      ]
    ]

  rmrf-target :
      (fuel : ℕ) (path dir base : Bytes) (s : fs.State)
      → dirname path ≡ some dir
      → basename path ≡ some base
      → rmrf fs (suc fuel) path s
        ≡ remove_node fs (rmrf fs fuel) (bytes_eq base star) (target path dir base) s
  unfolding rmrf
  rmrf-target fuel path dir base s ed eb = rw (ed, rmrf) (rw (eb, rmrf))

  module _ (N : ListsNames fs) where
    rmrf-Confines : (fuel : ℕ) → Confines (rmrf fs fuel)
    unfolding rmrf
    rmrf-Confines zero p n s s' r np name fits h = absurd (ground arith)
    rmrf-Confines (suc fuel) p n s s' r np name fits h =
        let parts = dirname-basename_inner p n name.no_slash name.ne_nil fits in
        let call = sym (rmrf-target fuel (below p n) p n s parts.0 parts.1) ∙ h in
        let same =
          remove_node-Same (rmrf fs fuel) (rmrf-Confines fuel) (bytes_eq n star)
            (target (below p n) p n) N s s' r call in
        elim (Bool-cases (bytes_eq n star)) [
          | inl e ↦
              subst (λ (b : Bool). Same fs L s s' (L.resolve (if b then p else below p n))) e same
          | inr e ↦
              let inner =
                subst (λ (b : Bool). Same fs L s s' (L.resolve (if b then p else below p n))) e
                  same in
              Same-child s s' (L.resolve p) n
                (subst (Same fs L s s') (L.resolve-below p n np name) inner)
        ]

-- Whatever rmrf finds in the file system, devices, directories that it cannot open and entries named
-- "*" included: where it ends, only what is at or below the path that it works on, and the listings
-- of the directories above that, can differ. That path is the one given, or its dirname where the
-- base is "*".
pub rmrf-Confined :
    (fs : FileSystem) (L : IsLawful fs)
    → ListsNames fs
    → (fuel : ℕ) (path dir base : Bytes) (s s' : fs.State) (r : ℤ) → dirname path ≡ some dir
    → basename path ≡ some base
    → rmrf fs fuel path s ≡ some (r, s')
    → Same fs L s s' (L.resolve (target path dir base))
unfolding rmrf
rmrf-Confined fs L N zero path dir base s s' r ed eb h = absurd (ground arith)
rmrf-Confined fs L N (suc fuel) path dir base s s' r ed eb h =
    remove_node-Same fs L (rmrf fs fuel) (rmrf-Confines fs L N fuel) (bytes_eq base star)
      (target path dir base) N s s' r (sym (rmrf-target fs L fuel path dir base s ed eb) ∙ h)
