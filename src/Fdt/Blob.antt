-- ===== src/Fdt/Blob.antt =====
-- A tree in memory, from address 256 on, which the tests of lib/fdt/fdt.c read.
use agatha.Prelude.{ℕ, zero, suc, ◌-◌, ◌+◌, ◌<◌, ◌≡◌, refl, arith, some, List, [], ◌∷◌}
use agatha.Fdt.{Header, fdt_check}
use agatha.Fdt.Format.{Items, finish, padding, property, child, NodeAt}

abbrev byte_at : List ℕ → ℕ → ℕ
byte_at [] a = 0
byte_at (b ∷ bytes) zero = b
byte_at (b ∷ bytes) (suc a) = byte_at bytes a

abbrev blob : List ℕ
blob =
    208 ∷ 13 ∷ 254 ∷ 237 ∷ 0 ∷ 0 ∷ 1 ∷ 3 ∷ 0 ∷ 0 ∷ 0 ∷ 72 ∷ 0 ∷ 0 ∷ 0 ∷ 224 ∷ 0 ∷ 0 ∷ 0 ∷ 40 ∷ 0 ∷ 0
    ∷ 0 ∷ 17 ∷ 0 ∷ 0 ∷ 0 ∷ 16 ∷ 0 ∷ 0 ∷ 0 ∷ 0 ∷ 0 ∷ 0 ∷ 0 ∷ 35 ∷ 0 ∷ 0 ∷ 0 ∷ 152 ∷ 0 ∷ 0 ∷ 0 ∷ 0 ∷ 0
    ∷ 0 ∷ 16 ∷ 0 ∷ 0 ∷ 0 ∷ 0 ∷ 0 ∷ 0 ∷ 0 ∷ 32 ∷ 0 ∷ 0 ∷ 0 ∷ 0 ∷ 0 ∷ 0 ∷ 0 ∷ 0 ∷ 0 ∷ 0 ∷ 0 ∷ 0 ∷ 0
    ∷ 0 ∷ 0 ∷ 0 ∷ 0 ∷ 0 ∷ 0 ∷ 0 ∷ 1 ∷ 0 ∷ 0 ∷ 0 ∷ 0 ∷ 0 ∷ 0 ∷ 0 ∷ 3 ∷ 0 ∷ 0 ∷ 0 ∷ 4 ∷ 0 ∷ 0 ∷ 0 ∷ 0
    ∷ 0 ∷ 0 ∷ 0 ∷ 5 ∷ 0 ∷ 0 ∷ 0 ∷ 1 ∷ 97 ∷ 98 ∷ 0 ∷ 0 ∷ 0 ∷ 0 ∷ 0 ∷ 3 ∷ 0 ∷ 0 ∷ 0 ∷ 4 ∷ 0 ∷ 0 ∷ 0
    ∷ 8 ∷ 120 ∷ 0 ∷ 121 ∷ 0 ∷ 0 ∷ 0 ∷ 0 ∷ 3 ∷ 0 ∷ 0 ∷ 0 ∷ 16 ∷ 0 ∷ 0 ∷ 0 ∷ 19 ∷ 0 ∷ 0 ∷ 0 ∷ 1 ∷ 0
    ∷ 0 ∷ 0 ∷ 2 ∷ 0 ∷ 0 ∷ 0 ∷ 3 ∷ 0 ∷ 0 ∷ 0 ∷ 4 ∷ 0 ∷ 0 ∷ 0 ∷ 4 ∷ 0 ∷ 0 ∷ 0 ∷ 3 ∷ 0 ∷ 0 ∷ 0 ∷ 2 ∷ 0
    ∷ 0 ∷ 0 ∷ 23 ∷ 122 ∷ 0 ∷ 0 ∷ 0 ∷ 0 ∷ 0 ∷ 0 ∷ 3 ∷ 0 ∷ 0 ∷ 0 ∷ 4 ∷ 0 ∷ 0 ∷ 0 ∷ 0 ∷ 0 ∷ 0 ∷ 0 ∷ 7
    ∷ 0 ∷ 0 ∷ 0 ∷ 2 ∷ 0 ∷ 0 ∷ 0 ∷ 1 ∷ 97 ∷ 98 ∷ 99 ∷ 0 ∷ 0 ∷ 0 ∷ 0 ∷ 3 ∷ 0 ∷ 0 ∷ 0 ∷ 2 ∷ 0 ∷ 0 ∷ 0
    ∷ 8 ∷ 121 ∷ 0 ∷ 0 ∷ 0 ∷ 0 ∷ 0 ∷ 0 ∷ 2 ∷ 0 ∷ 0 ∷ 0 ∷ 2 ∷ 0 ∷ 0 ∷ 0 ∷ 9 ∷ 112 ∷ 104 ∷ 97 ∷ 110
    ∷ 100 ∷ 108 ∷ 101 ∷ 0 ∷ 99 ∷ 111 ∷ 109 ∷ 112 ∷ 97 ∷ 116 ∷ 105 ∷ 98 ∷ 108 ∷ 101 ∷ 0 ∷ 114 ∷ 101
    ∷ 103 ∷ 0 ∷ 100 ∷ 101 ∷ 118 ∷ 105 ∷ 99 ∷ 101 ∷ 95 ∷ 116 ∷ 121 ∷ 112 ∷ 101 ∷ 0 ∷ []

abbrev pub mem : ℕ → ℕ
mem a = byte_at blob (a - 256)

abbrev pub header : Header
header = record { totalsize = 259; off_dt_struct = 72; off_dt_strings = 224; off_mem_rsvmap = 40 }

abbrev pub in_root : Items
in_root =
    property (record { name = 480; data_at = 348; len = 4 })
      (112 ∷ 104 ∷ 97 ∷ 110 ∷ 100 ∷ 108 ∷ 101 ∷ [])
      (child 352 (97 ∷ 98 ∷ [])
        (property (record { name = 488; data_at = 372; len = 4 })
          (99 ∷ 111 ∷ 109 ∷ 112 ∷ 97 ∷ 116 ∷ 105 ∷ 98 ∷ 108 ∷ 101 ∷ [])
          (property (record { name = 499; data_at = 388; len = 16 }) (114 ∷ 101 ∷ 103 ∷ [])
            (padding (
              property (record { name = 503; data_at = 420; len = 2 })
                (100 ∷ 101 ∷ 118 ∷ 105 ∷ 99 ∷ 101 ∷ 95 ∷ 116 ∷ 121 ∷ 112 ∷ 101 ∷ [])
                (property (record { name = 480; data_at = 436; len = 4 })
                  (112 ∷ 104 ∷ 97 ∷ 110 ∷ 100 ∷ 108 ∷ 101 ∷ []) (finish))))))
        (child 444 (97 ∷ 98 ∷ 99 ∷ [])
          (property (record { name = 488; data_at = 464; len = 2 })
            (99 ∷ 111 ∷ 109 ∷ 112 ∷ 97 ∷ 116 ∷ 105 ∷ 98 ∷ 108 ∷ 101 ∷ []) (finish))
          (finish)))

pub fdt_check-header : fdt_check mem 256 ≡ some header
unfolding fdt_check
fdt_check-header = refl

pub pos : {n : ℕ} → 0 < suc n
pos = omega arith

pub NodeAt-root :
    NodeAt mem (256 + header.off_dt_strings) (256 + header.off_dt_struct) [] in_root 472
NodeAt-root = (
  refl,
  refl,
  (
    refl,
    refl,
    (refl, pos, (refl, pos, (refl, pos, (refl, pos, (refl, pos, (refl, pos, (refl, pos, refl))))))),
    (
      refl,
      refl,
      (refl, pos, (refl, pos, refl)),
      440,
      (
        refl,
        refl,
        (
          refl,
          pos,
          (
            refl,
            pos,
            (
              refl,
              pos,
              (
                refl,
                pos,
                (refl, pos, (refl, pos, (refl, pos, (refl, pos, (refl, pos, (refl, pos, refl)))))),
              ),
            ),
          ),
        ),
        (
          refl,
          refl,
          (refl, pos, (refl, pos, (refl, pos, refl))),
          (
            refl,
            (
              refl,
              refl,
              (
                refl,
                pos,
                (
                  refl,
                  pos,
                  (
                    refl,
                    pos,
                    (
                      refl,
                      pos,
                      (
                        refl,
                        pos,
                        (
                          refl,
                          pos,
                          (refl, pos, (refl, pos, (refl, pos, (refl, pos, (refl, pos, refl))))),
                        ),
                      ),
                    ),
                  ),
                ),
              ),
              (
                refl,
                refl,
                (
                  refl,
                  pos,
                  (
                    refl,
                    pos,
                    (refl, pos, (refl, pos, (refl, pos, (refl, pos, (refl, pos, refl))))),
                  ),
                ),
                (refl, refl),
              ),
            ),
          ),
        ),
      ),
      (
        refl,
        refl,
        (refl, pos, (refl, pos, (refl, pos, refl))),
        468,
        (
          refl,
          refl,
          (
            refl,
            pos,
            (
              refl,
              pos,
              (
                refl,
                pos,
                (
                  refl,
                  pos,
                  (
                    refl,
                    pos,
                    (refl, pos, (refl, pos, (refl, pos, (refl, pos, (refl, pos, refl))))),
                  ),
                ),
              ),
            ),
          ),
          (refl, refl),
        ),
        (refl, refl),
      ),
    ),
  ),
)

abbrev pub in_ab : Items
in_ab =
    property (record { name = 488; data_at = 372; len = 4 })
      (99 ∷ 111 ∷ 109 ∷ 112 ∷ 97 ∷ 116 ∷ 105 ∷ 98 ∷ 108 ∷ 101 ∷ [])
      (property (record { name = 499; data_at = 388; len = 16 }) (114 ∷ 101 ∷ 103 ∷ [])
        (padding (
          property (record { name = 503; data_at = 420; len = 2 })
            (100 ∷ 101 ∷ 118 ∷ 105 ∷ 99 ∷ 101 ∷ 95 ∷ 116 ∷ 121 ∷ 112 ∷ 101 ∷ [])
            (property (record { name = 480; data_at = 436; len = 4 })
              (112 ∷ 104 ∷ 97 ∷ 110 ∷ 100 ∷ 108 ∷ 101 ∷ []) (finish)))))

pub NodeAt-ab : NodeAt mem (256 + header.off_dt_strings) 352 (97 ∷ 98 ∷ []) in_ab 440
NodeAt-ab = (
  refl,
  (refl, pos, (refl, pos, refl)),
  (
    refl,
    refl,
    (
      refl,
      pos,
      (
        refl,
        pos,
        (
          refl,
          pos,
          (
            refl,
            pos,
            (refl, pos, (refl, pos, (refl, pos, (refl, pos, (refl, pos, (refl, pos, refl)))))),
          ),
        ),
      ),
    ),
    (
      refl,
      refl,
      (refl, pos, (refl, pos, (refl, pos, refl))),
      (
        refl,
        (
          refl,
          refl,
          (
            refl,
            pos,
            (
              refl,
              pos,
              (
                refl,
                pos,
                (
                  refl,
                  pos,
                  (
                    refl,
                    pos,
                    (
                      refl,
                      pos,
                      (refl, pos, (refl, pos, (refl, pos, (refl, pos, (refl, pos, refl))))),
                    ),
                  ),
                ),
              ),
            ),
          ),
          (
            refl,
            refl,
            (
              refl,
              pos,
              (refl, pos, (refl, pos, (refl, pos, (refl, pos, (refl, pos, (refl, pos, refl)))))),
            ),
            (refl, refl),
          ),
        ),
      ),
    ),
  ),
)
