-- ===== src/Service/Device/Counts.antt =====
-- The list of devices as a map from names to numbers of users.
use livezure.Prelude.{
  ℕ, zero, suc, ◌+◌, ◌≤◌, ◌<◌, ◌≡◌, refl, ap, ◌∙◌, true, false, if◌then◌else◌, Bool-cases, inl, inr,
  List, [], ◌∷◌, length, take, take-all, arith, ok, fault, failed_assert, ◌>>=◌, text_eq,
  text_eq_refl, text_eq-eq, Run,
}
use livezure.Common.Pref
use livezure.Service.Device.{Device, ref_work, dref, drop_unused}

-- How many users a device has.
abbrev pub number : List ℕ → List Device → ℕ
number u [] = 0
number u (d ∷ rest) = if text_eq d.device_uuid u then d.refcount else number u rest

-- Every device of the list has a user, and no other entry.
abbrev pub IsValid : List Device → Type 0
IsValid [] = Unit
IsValid (d ∷ rest) = (0 < d.refcount) × (number d.device_uuid rest ≡ 0) × IsValid rest

-- The list `after` is valid, and it differs in that the device has `n` users.
pub record Counts (uuid : List ℕ) (n : ℕ) (before after : List Device) : Type 0 where
  pub valid : IsValid after
  pub at : number uuid after ≡ n
  pub others : (u : List ℕ) → text_eq uuid u ≡ false → number u after ≡ number u before

others_head :
    (d : Device) (uuid u : List ℕ)
    → text_eq d.device_uuid uuid ≡ true
    → text_eq uuid u ≡ false
    → text_eq d.device_uuid u ≡ false
others_head d uuid u same other = ground (arith, text_eq-eq d.device_uuid uuid same)

text_eq_comm : (a b : List ℕ) → text_eq a b ≡ false → text_eq b a ≡ false
text_eq_comm a b h = elim (Bool-cases (text_eq b a)) [
  | inl e ↦ ground (arith, text_eq-eq b a e, text_eq_refl a)
  | inr e ↦ e
]

-- A new user of a device whose name fits, in a valid list: it returns the number of its users, one
-- more than before, no other device changes, and the list stays valid.
pub ref_work-Counts :
    (uuid : List ℕ) (t : List Device)
    → length uuid ≤ 38
    → IsValid t
    → ((ref_work uuid t).0 ≡ number uuid t + 1)
      × Counts uuid (number uuid t + 1) t (ref_work uuid t).1
unfolding ref_work Pref.get Pref.count Pref.init
ref_work-Counts uuid [] short v =
    let cut : take 38 uuid ≡ uuid = take-all 38 uuid short in
    (
      refl,
      record {
        valid = (omega arith, refl, tt);
        at = rw (cut, text_eq_refl uuid) refl;
        others = λ u h. rw (cut, h) refl;
      },
    )
ref_work-Counts uuid (d ∷ rest) short v = elim (Bool-cases (text_eq d.device_uuid uuid)) [
  | inl e ↦ rw e (
    refl,
    record {
      valid = (omega arith, v.1, v.2);
      at = rw e refl;
      others = λ u h. rw (others_head d uuid u e h) refl;
    },
  )
  | inr e ↦
      let later = ref_work-Counts uuid rest short v.2 in
      rw e (
        later.0,
        record {
          valid = (
            v.0,
            later.1.others d.device_uuid (text_eq_comm d.device_uuid uuid e) ∙ v.1,
            later.1.valid,
          );
          at = rw e later.1.at;
          others = λ u h.
              ap (λ n. if text_eq d.device_uuid u then d.refcount else n) (later.1.others u h);
        },
      )
]

-- A device with no user: `session_device_dref` asserts.
dref_unused :
    (uuid : List ℕ) (t : List Device)
    → IsValid t
    → number uuid t ≡ 0
    → dref uuid t ≡ fault failed_assert
unfolding dref
dref_unused uuid [] v z = refl
dref_unused uuid (d ∷ rest) v z = elim (Bool-cases (text_eq d.device_uuid uuid)) [
  | inl e ↦ absurd (ground arith)
  | inr e ↦
      let z' : number uuid rest ≡ 0 = ground arith in rw (e, dref_unused uuid rest v.2 z') refl
]

-- What a user that leaves gets, and the list after it.
pub record Leaves (uuid : List ℕ) (n : ℕ) (t : List Device) : Type 0 where
  pub after : List Device
  pub returns : dref uuid t ≡ ok (n, after)
  pub counts : Counts uuid n t after

leaving :
    (d : Device) (rest : List Device) (n : ℕ)
    → d.refcount ≡ suc n
    → Pref.put d.refcount >>= (λ c_ref. ok (drop_unused d rest c_ref)) ≡ ok (drop_unused d rest n)
unfolding Pref.put
leaving d rest n h = rw h refl

drop_returns :
    (d : Device) (rest : List Device) (n : ℕ)
    → Path (Run (ℕ × List Device)) (ok (drop_unused d rest n)) (ok (n, (drop_unused d rest n).1))
unfolding drop_unused
drop_returns d rest zero = refl
drop_returns d rest (suc n) = refl

head_leaves :
    (uuid : List ℕ) (d : Device) (rest : List Device) (n : ℕ)
    → IsValid (d ∷ rest)
    → text_eq d.device_uuid uuid ≡ true
    → Counts uuid n (d ∷ rest) (drop_unused d rest n).1
unfolding drop_unused
head_leaves uuid d rest zero v e = record {
  valid = v.2;
  at = rw (← text_eq-eq d.device_uuid uuid e) v.1;
  others = λ u h. rw (others_head d uuid u e h) refl;
}
head_leaves uuid d rest (suc n) v e = record {
  valid = (omega arith, v.1, v.2);
  at = rw e refl;
  others = λ u h. rw (others_head d uuid u e h) refl;
}

-- A user of a device leaves, the list being valid: it returns the number of the others, no other
-- device changes, and the list stays valid.
pub dref-Leaves :
    (uuid : List ℕ) (t : List Device) (n : ℕ) → IsValid t → number uuid t ≡ suc n → Leaves uuid n t
unfolding dref
dref-Leaves uuid [] n v h = absurd (omega arith)
dref-Leaves uuid (d ∷ rest) n v h = elim (Bool-cases (text_eq d.device_uuid uuid)) [
  | inl e ↦
      let c : d.refcount ≡ suc n = ground arith in
      record {
        after = (drop_unused d rest n).1;
        returns = rw (e, leaving d rest n c) (drop_returns d rest n);
        counts = head_leaves uuid d rest n v e;
      }
  | inr e ↦
      let c : number uuid rest ≡ suc n = ground arith in
      let later = dref-Leaves uuid rest n v.2 c in
      record {
        after = d ∷ later.after;
        returns = rw (e, later.returns) refl;
        counts = record {
          valid = (
            v.0,
            later.counts.others d.device_uuid (text_eq_comm d.device_uuid uuid e) ∙ v.1,
            later.counts.valid,
          );
          at = rw e later.counts.at;
          others = λ u h.
              ap (λ k. if text_eq d.device_uuid u then d.refcount else k) (later.counts.others u h);
        };
      }
]
