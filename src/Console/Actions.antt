-- ===== src/Console/Actions.antt =====
-- What erasing, inserting and committing do to the input buffer, by what the editor does.
use systems_programming_a.Prelude.{
  ℕ, zero, suc, ◌+◌, ◌-◌, ◌%◌, ◌^◌, ◌<◌, ◌≡◌, ◌≢◌, refl, ap, ◌∙◌, sym, arith, true, not, ◌&&◌, [],
  ◌∷◌, ◌++◌, ◌==◌, update,
}
use systems_programming_a.Console.Defs.{
  Console, input_buf, newline, erase, kill_line, editing_size, last, insert, commit,
}
use systems_programming_a.Console.Editor.{Editor, drop_last, drop_last, size}
use systems_programming_a.Console.Ring.{
  gap, between, IsValid, editor, drop_last-append, All-append, between-pred, between-update,
  between-update_ne, between-append, between_self, length-between,
}

pub record Does (s : Console) (t : Editor) : Type 0 where
  pub valid : IsValid s
  pub same : editor s ≡ t

pub erase-Does :
    (s : Console)
    → IsValid s
    → s.e ≢ s.w
    → Does
        (erase s)
        (record { committed = between s.buf s.r s.w; editing = drop_last (between s.buf s.w s.e) })
unfolding erase
erase-Does s v ne =
    let e' = (s.e + 2 ^ 32 - 1) % 2 ^ 32 in
    let shorter = between-pred s.buf s.w s.e e' v.w_fits v.e_fits (λ q. ne (sym q)) refl in
    record {
      valid = record {
        r_fits = v.r_fits;
        w_fits = v.w_fits;
        e_fits = omega arith;
        ordered = omega arith;
        fits = omega arith;
        one_line = ((All-append (λ c. c ≢ newline) _ _).0 (rw shorter at v.one_line)).0;
      };
      same = rw (shorter, drop_last-append);
    }

-- The byte before the edit index is on the line that is being typed, so it is no newline.
pub last-lem : (s : Console) → IsValid s → s.e ≢ s.w → last s ≢ newline
last-lem s v ne =
    let e' = (s.e + 2 ^ 32 - 1) % 2 ^ 32 in
    let shorter = between-pred s.buf s.w s.e e' v.w_fits v.e_fits (λ q. ne (sym q)) refl in
    ((All-append (λ c. c ≢ newline) (between s.buf s.w e') _).0 (rw shorter at v.one_line)).1

pub editing_size-erase :
    (s : Console)
    → s.w < 2 ^ 32
    → s.e < 2 ^ 32
    → s.e ≢ s.w
    → (editing_size (erase s) + 1 ≡ editing_size s)
unfolding erase
editing_size-erase s hw he ne = omega arith

pub erase-indices :
    (s : Console) → ((erase s).w ≡ s.w) × ((erase s).r ≡ s.r) × ((erase s).buf ≡ s.buf)
unfolding erase
erase-indices s = (refl, refl, refl)

-- With a round for each character of the line, the loop erases the whole line.
pub kill_line-Does :
    (fuel : ℕ) (s : Console)
    → IsValid s
    → editing_size s ≡ fuel
    → Does (kill_line fuel s) (record { committed = between s.buf s.r s.w; editing = [] })
unfolding kill_line
kill_line-Does zero s v h =
    let at_start : s.e ≡ s.w = grind arith in
    record {
      valid = v;
      same =
          ap (λ t. record { committed = between s.buf s.r s.w; editing = t })
            (ap (λ e. between s.buf s.w e) at_start ∙ between_self s.buf s.w v.w_fits);
    }
kill_line-Does (suc fuel) s v h =
    let ne : s.e ≢ s.w = omega arith in
    let inner = erase-Does s v ne in
    let (w, r, b) = erase-indices s in
    let n : editing_size (erase s) ≡ fuel = omega (arith, editing_size-erase s) in
    let d = kill_line-Does fuel (erase s) inner.valid n in
    let go : not (s.e == s.w) && not (last s == newline) ≡ true = ground (arith, last-lem s v ne) in
    rw go (record { valid = d.valid; same = d.same ∙ (rw (w, r, b)) })

pub insert-Does :
    (c : ℕ) (s : Console)
    → IsValid s
    → gap s.r s.e < input_buf
    → c % 256 ≢ newline
    → Does (insert c s) (record {
      committed = between s.buf s.r s.w;
      editing = between s.buf s.w s.e ++ ((c % 256) ∷ []);
    })
unfolding insert
insert-Does c s v g ne =
    let longer = between-update s.buf s.w s.e (c % 256) v.w_fits v.e_fits (omega arith) in
    let before = between-update_ne s.buf s.r s.w s.e (c % 256) v.r_fits v.e_fits g (omega arith) in
    record {
      valid = record {
        r_fits = v.r_fits;
        w_fits = v.w_fits;
        e_fits = omega arith;
        ordered = omega arith;
        fits = omega arith;
        one_line = rw longer ((All-append (λ c. c ≢ newline) _ _).1 v.one_line ne);
      };
      same = rw (longer, before);
    }

-- Inserting a character and committing the line.
pub commit-Does :
    (c : ℕ) (s : Console)
    → IsValid s
    → gap s.r s.e < input_buf
    → Does (commit (insert c s)) (record {
      committed = between s.buf s.r s.w ++ (between s.buf s.w s.e ++ ((c % 256) ∷ []));
      editing = [];
    })
unfolding insert commit
commit-Does c s v g =
    let e' = (s.e + 1) % 2 ^ 32 in
    let d = update s.buf (s.e % input_buf) (c % 256) in
    let longer = between-update s.buf s.w s.e (c % 256) v.w_fits v.e_fits (omega arith) in
    let before = between-update_ne s.buf s.r s.w s.e (c % 256) v.r_fits v.e_fits g (omega arith) in
    let whole = between-append d s.r s.w e' v.r_fits v.w_fits (omega arith) in
    record {
      valid = record {
        r_fits = v.r_fits;
        w_fits = omega arith;
        e_fits = omega arith;
        ordered = omega arith;
        fits = omega arith;
        one_line = rw (between_self d e' (omega arith)) tt;
      };
      same = rw (whole, longer, before, between_self d e' (omega arith));
    }

pub insert-indices :
    (c : ℕ) (s : Console) → ((insert c s).e ≡ (s.e + 1) % 2 ^ 32) × ((insert c s).r ≡ s.r)
unfolding insert
insert-indices c s = (refl, refl)

pub size-editor : (s : Console) → IsValid s → size (editor s) ≡ gap s.r s.e
unfolding size
size-editor s v = omega (arith, length-between s.buf s.r s.w, length-between s.buf s.w s.e)
