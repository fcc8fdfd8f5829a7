-- ===== src/Pool/Tests.antt =====
-- A pool of objects of 8 bytes, with a frame of two of them at 1000.
use agatha.Prelude.{◌≡◌, refl, true, false, arith, ◌==◌, if◌then◌else◌, [], ◌∷◌}
use agatha.Pool.{Pool, pool_init}
use agatha.Pool.Laws.{Free}

abbrev empty : Pool
empty = record {
  obj_size = 16;
  objs = 0;
  n_free = 0;
  frames = [];
  next = λ _. 0;
  in_use = λ _. true;
}

empty-init : pool_init 8 (λ _. 0) (λ _. true) ≡ empty
unfolding pool_init
empty-init = refl

empty-Free : Free empty []
empty-Free = record { linked = refl; distinct = tt; unused = tt; count = refl }

abbrev loaded : Pool
loaded = record {
  obj_size = 16;
  objs = 1028;
  n_free = 2;
  frames = 1000 ∷ [];
  next = λ x. if x == 1028 then 1012 else 0;
  in_use = λ _. false;
}

loaded-Free : Free loaded (1028 ∷ 1012 ∷ [])
loaded-Free = record {
  linked = (refl, omega arith, (refl, omega arith, refl));
  distinct = ((omega arith, tt), (tt, tt));
  unused = (refl, (refl, tt));
  count = refl;
}
