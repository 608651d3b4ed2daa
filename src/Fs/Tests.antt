-- ===== src/Fs/Tests.antt =====
-- Runs of kernel/fs, and the theorems at small trees of files.
use brackos.Base.{
  ℕ, ◌+◌, ◌-◌, ◌≡◌, ◌≢◌, refl, ◌⊎◌, true, false, none, some, List, [], ◌∷◌, ◌++◌, inl, length, drop,
  set, get_or, min, ◌==◌, if◌then◌else◌, arith,
}
use brackos.Base.Outcome.{Outcome, ok, fault, Returns}
use brackos.Std.Array.{list_init, low_bytes}
use brackos.Std.Array.Add.{Holds}
use brackos.Tasks.{Kernel, no_task, first_regs}
use brackos.Fs.{File, Files, null, slash, no_path, text_of, write_chars}
use brackos.Fs.Tree.{
  Resolved, no_file, file_resolve, resolve_from, find_friend, comp_of, rest_of, not_found,
}
use brackos.Fs.Ref.{file_ref_close}
use brackos.Fs.Vfs.{vfs_open, vfs_read}
use brackos.Fs.Mount.{mount}
use brackos.Fs.Call.{file_open}
use brackos.Fs.Parts.{FirstNamed, NoneNamed}
use brackos.Fs.Walk.{Goes, down, stop}
use brackos.Fs.Create.{file_resolve-named, file_resolve-overlays}
use brackos.Fs.Open.{vfs_open-creates}
use brackos.Fs.Fid.{file_ref_close-mixes}
use brackos.Fs.Wipe.{mount-Wiped}
use brackos.Fs.Read.{IsRead, vfs_read-IsRead}

-- "ab", "x"
abbrev ab : List ℕ
ab = 97 ∷ (98 ∷ [])

abbrev x : List ℕ
x = 120 ∷ []

-- The root 10 has the empty directory "ab" at 20.
abbrev tree : ℕ → File
tree q =
    if q == 10
    then record no_file { child = 20; node = 5 }
    else if q == 20
    then record no_file { name = ab; node = 6 }
    else no_file

abbrev kernel : Kernel
kernel = record {
  heap = λ q. no_task;
  table = λ q. 0;
  regs = λ q. first_regs 0 0;
  current = 100;
  first_run = false;
  irq_happening = false;
  irq_regs = 0;
  blocks = 40 ∷ (50 ∷ (60 ∷ (70 ∷ [])));
  stacks = [];
  events = [];
}

abbrev state : Files
state = record {
  files = tree;
  nodes = λ q. record { bytes = 1 ∷ (2 ∷ (3 ∷ [])); len = 3 };
  refs = λ q. record { fid = 0; file = 20; index = 1; task = 100; flags = 1 };
  pairs = λ q. record { fid = q; ref = 30 };
  mounts = λ q. record {
    path = slash ∷ [];
    children = record { block = none; index = 0; count = 0 };
    fs = 7;
  };
  roots = λ q. 10;
  root_addr = 1;
  kernel = kernel;
}

-- "/ab/x" gets the name "xb".
name_of : Outcome Resolved → List ℕ
name_of (ok r) = text_of r.last_file
name_of other = []

overlaid :
    name_of (file_resolve 5 5 10 (slash ∷ (ab ++ (slash ∷ x))) no_path tree) ≡ 120 ∷ (98 ∷ [])
unfolding name_of text_of file_resolve resolve_from write_chars find_friend comp_of rest_of
    not_found
overlaid = refl

to_ab : Goes tree 5 10 10 [] [] (ab ∷ []) 20 10 [] ab
to_ab = down (10 ∷ []) (refl, omega arith, refl) (inl (refl, refl)) (omega arith) stop

file_resolve-named_example :
    ((q : ℕ) × FirstNamed tree ab (20 ∷ []) q
      × (q ≢ null)
      × Returns
          (λ r. (r.found ≡ q) × (r.prev_file ≡ 10))
          (file_resolve 5 5 10 (slash ∷ ab) no_path tree))
    ⊎ (NoneNamed tree ab (20 ∷ [])
        × Returns
            (λ r. (r.found ≡ null) × (text_of r.last_file ≡ ab) × (r.prev_file ≡ 10))
            (file_resolve 5 5 10 (slash ∷ ab) no_path tree))
file_resolve-named_example =
    file_resolve-named tree 5 5 10 20 10 [] [] ab (ab ∷ []) (20 ∷ []) to_ab
      ((omega arith), ((omega arith), (λ e. absurd cc))) (omega arith) (omega arith)
      (refl, omega arith, refl) (omega arith)

file_resolve-overlays_example :
    Returns
      (λ r. (r.found ≡ null) × (r.prev_file ≡ 20) × (text_of r.last_file ≡ x ++ drop (length x) ab))
      (file_resolve 5 5 10 (slash ∷ (ab ++ (slash ∷ x))) no_path tree)
file_resolve-overlays_example =
    file_resolve-overlays tree 5 5 10 20 [] ab x (ab ∷ (x ∷ []))
      (down (10 ∷ []) (refl, omega arith, refl) (inl (refl, refl)) (omega arith)
        (down (20 ∷ []) (refl, omega arith, refl) (inl (refl, refl)) (omega arith) stop))
      ((omega arith), ((omega arith), ((omega arith), (λ e. absurd cc)))) (omega arith)
      (omega arith)

-- O_WRT
vfs_open-creates_example :
    Returns
      (λ t.
        (t.0 ≡ 60)
        × ((t.1.refs 60).file ≡ 50)
        × Returns
            (λ r. (r.found ≡ 50) × (r.prev_file ≡ 10))
            (file_resolve 5 5 10 (slash ∷ x) no_path t.1.files))
      (vfs_open 5 5 (λ i. 0) true 7 (slash ∷ x) 2 state)
vfs_open-creates_example =
    vfs_open-creates state 7 5 3 2 40 50 60 70 (λ i. 0) [] x (20 ∷ []) []
      (record {
        root_file = omega arith;
        unnamed = refl;
        alone = refl;
        files = (refl, omega arith, refl);
      })
      (omega arith, λ e. absurd cc) (refl, tt) (omega arith) refl refl (omega arith) (omega arith)
      (omega arith) (omega arith) (omega arith) (omega arith)
      (unfold list_init in record { start = refl; filled = refl; uncounted = refl }) (omega arith)

-- Two references, of the pairs 200 and 300; the one with the file id 200 is closed.
abbrev two_open : Files
two_open = record state {
  kernel = record kernel {
    heap = λ q. record no_task {
      pairs = record { block = some (200 ∷ (300 ∷ [])); index = 2; count = 0 };
    };
  };
  refs = λ q. record { fid = 200; file = 20; index = 0; task = 100; flags = 1 };
}

file_ref_close-mixes_instance :
    Returns
      (λ t.
        ((t.kernel.heap 100).pairs.block
          ≡ some (
              set
                (200 ∷ (300 ∷ []))
                0
                (low_bytes 1 (get_or (200 ∷ (300 ∷ [])) 0 0) (get_or (200 ∷ (300 ∷ [])) 1 0))))
        × ((t.kernel.heap 100).pairs.index ≡ 0 + 1))
      (file_ref_close 30 two_open)
file_ref_close-mixes_instance =
    file_ref_close-mixes two_open 30 200 1 [] (200 ∷ (300 ∷ [])) (omega arith) refl refl refl
      (omega arith) (omega arith) (omega arith) refl tt (omega arith) refl

mount-Wiped_example :
    Returns
      (λ t.
        ((t.mounts 1).path ≡ ab)
        × ((t.mounts 50).path ≡ [])
        × ((t.mounts 50).fs ≡ 8)
        × Holds (t.mounts 1).children (50 ∷ [])
        × (file_open 3 3 3 3 (λ i. 0) true x 1 t ≡ fault))
      (mount (λ i. 0) true 3 3 no_path (slash ∷ ab) 8 state)
mount-Wiped_example =
    mount-Wiped state (λ i. 0) 2 3 8 40 50 (60 ∷ (70 ∷ [])) ab 3 3 3 1 x refl refl refl
      (omega arith) (omega arith) (omega arith) (omega arith) (omega arith) (omega arith)

vfs_read-IsRead_example :
    Returns
      (IsRead 30 1 (min (3 - 1) 9) (1 ∷ (2 ∷ (3 ∷ []))) (0 ∷ (0 ∷ (0 ∷ []))))
      (vfs_read 30 9 (some (0 ∷ (0 ∷ (0 ∷ [])))) state)
vfs_read-IsRead_example =
    vfs_read-IsRead 30 1 9 9 (1 ∷ (2 ∷ (3 ∷ []))) (0 ∷ (0 ∷ (0 ∷ []))) state
      (record {
        file = omega arith;
        node = omega arith;
        bytes = refl;
        len = refl;
        small = omega arith;
        index_at = refl;
        inside = omega arith;
        plain = refl;
      })
      (inl (omega arith, refl)) (omega arith)
