-- ===== src/DataCompression/Shipped/Table.antt =====
-- The pairs of src/config/huffcode.map, in the order of the file.
use bitcoin_messaging.Base.{true, false, [], ◌∷◌}
use bitcoin_messaging.DataCompression.{HuffCodeMap, Node, leaf, internal}

abbrev pub shipped_codes : HuffCodeMap
shipped_codes =
    (110, false ∷ false ∷ false ∷ false ∷ [])
    ∷ (100, false ∷ false ∷ false ∷ true ∷ false ∷ [])
    ∷ (39, false ∷ false ∷ false ∷ true ∷ true ∷ false ∷ false ∷ false ∷ [])
    ∷ (53, false ∷ false ∷ false ∷ true ∷ true ∷ false ∷ false ∷ true ∷ false ∷ false ∷ [])
    ∷ (57, false ∷ false ∷ false ∷ true ∷ true ∷ false ∷ false ∷ true ∷ false ∷ true ∷ [])
    ∷ (122, false ∷ false ∷ false ∷ true ∷ true ∷ false ∷ false ∷ true ∷ true ∷ false ∷ [])
    ∷ (51, false ∷ false ∷ false ∷ true ∷ true ∷ false ∷ false ∷ true ∷ true ∷ true ∷ [])
    ∷ (45, false ∷ false ∷ false ∷ true ∷ true ∷ false ∷ true ∷ false ∷ [])
    ∷ (48, false ∷ false ∷ false ∷ true ∷ true ∷ false ∷ true ∷ true ∷ false ∷ [])
    ∷ (76, false ∷ false ∷ false ∷ true ∷ true ∷ false ∷ true ∷ true ∷ true ∷ false ∷ [])
    ∷ (69, false ∷ false ∷ false ∷ true ∷ true ∷ false ∷ true ∷ true ∷ true ∷ true ∷ [])
    ∷ (71, false ∷ false ∷ false ∷ true ∷ true ∷ true ∷ false ∷ false ∷ false ∷ false ∷ [])
    ∷ (87, false ∷ false ∷ false ∷ true ∷ true ∷ true ∷ false ∷ false ∷ false ∷ true ∷ [])
    ∷ (113, false ∷ false ∷ false ∷ true ∷ true ∷ true ∷ false ∷ false ∷ true ∷ false ∷ [])
    ∷ (
      63,
      false ∷ false ∷ false ∷ true ∷ true ∷ true ∷ false ∷ false ∷ true ∷ true ∷ false ∷ false ∷ [],
    )
    ∷ (
      3,
      false ∷ false ∷ false ∷ true ∷ true ∷ true ∷ false ∷ false ∷ true ∷ true ∷ false ∷ true
          ∷ false ∷ [],
    )
    ∷ (
      43,
      false ∷ false ∷ false ∷ true ∷ true ∷ true ∷ false ∷ false ∷ true ∷ true ∷ false ∷ true ∷ true
          ∷ false ∷ [],
    )
    ∷ (
      38,
      false ∷ false ∷ false ∷ true ∷ true ∷ true ∷ false ∷ false ∷ true ∷ true ∷ false ∷ true ∷ true
          ∷ true ∷ false ∷ [],
    )
    ∷ (
      35,
      false ∷ false ∷ false ∷ true ∷ true ∷ true ∷ false ∷ false ∷ true ∷ true ∷ false ∷ true ∷ true
          ∷ true ∷ true ∷ false ∷ false ∷ [],
    )
    ∷ (
      64,
      false ∷ false ∷ false ∷ true ∷ true ∷ true ∷ false ∷ false ∷ true ∷ true ∷ false ∷ true ∷ true
          ∷ true ∷ true ∷ false ∷ true ∷ [],
    )
    ∷ (
      42,
      false ∷ false ∷ false ∷ true ∷ true ∷ true ∷ false ∷ false ∷ true ∷ true ∷ false ∷ true ∷ true
          ∷ true ∷ true ∷ true ∷ [],
    )
    ∷ (74, false ∷ false ∷ false ∷ true ∷ true ∷ true ∷ false ∷ false ∷ true ∷ true ∷ true ∷ [])
    ∷ (120, false ∷ false ∷ false ∷ true ∷ true ∷ true ∷ false ∷ true ∷ false ∷ [])
    ∷ (72, false ∷ false ∷ false ∷ true ∷ true ∷ true ∷ false ∷ true ∷ true ∷ false ∷ [])
    ∷ (106, false ∷ false ∷ false ∷ true ∷ true ∷ true ∷ false ∷ true ∷ true ∷ true ∷ [])
    ∷ (46, false ∷ false ∷ false ∷ true ∷ true ∷ true ∷ true ∷ [])
    ∷ (105, false ∷ false ∷ true ∷ false ∷ [])
    ∷ (111, false ∷ false ∷ true ∷ true ∷ [])
    ∷ (32, false ∷ true ∷ [])
    ∷ (121, true ∷ false ∷ false ∷ false ∷ false ∷ false ∷ [])
    ∷ (103, true ∷ false ∷ false ∷ false ∷ false ∷ true ∷ [])
    ∷ (112, true ∷ false ∷ false ∷ false ∷ true ∷ false ∷ [])
    ∷ (102, true ∷ false ∷ false ∷ false ∷ true ∷ true ∷ [])
    ∷ (97, true ∷ false ∷ false ∷ true ∷ [])
    ∷ (108, true ∷ false ∷ true ∷ false ∷ false ∷ [])
    ∷ (44, true ∷ false ∷ true ∷ false ∷ true ∷ false ∷ false ∷ [])
    ∷ (118, true ∷ false ∷ true ∷ false ∷ true ∷ false ∷ true ∷ [])
    ∷ (58, true ∷ false ∷ true ∷ false ∷ true ∷ true ∷ false ∷ false ∷ false ∷ false ∷ false ∷ [])
    ∷ (55, true ∷ false ∷ true ∷ false ∷ true ∷ true ∷ false ∷ false ∷ false ∷ false ∷ true ∷ [])
    ∷ (56, true ∷ false ∷ true ∷ false ∷ true ∷ true ∷ false ∷ false ∷ false ∷ true ∷ false ∷ [])
    ∷ (54, true ∷ false ∷ true ∷ false ∷ true ∷ true ∷ false ∷ false ∷ false ∷ true ∷ true ∷ [])
    ∷ (73, true ∷ false ∷ true ∷ false ∷ true ∷ true ∷ false ∷ false ∷ true ∷ [])
    ∷ (49, true ∷ false ∷ true ∷ false ∷ true ∷ true ∷ false ∷ true ∷ false ∷ [])
    ∷ (67, true ∷ false ∷ true ∷ false ∷ true ∷ true ∷ false ∷ true ∷ true ∷ [])
    ∷ (83, true ∷ false ∷ true ∷ false ∷ true ∷ true ∷ true ∷ false ∷ false ∷ [])
    ∷ (70, true ∷ false ∷ true ∷ false ∷ true ∷ true ∷ true ∷ false ∷ true ∷ false ∷ [])
    ∷ (68, true ∷ false ∷ true ∷ false ∷ true ∷ true ∷ true ∷ false ∷ true ∷ true ∷ [])
    ∷ (78, true ∷ false ∷ true ∷ false ∷ true ∷ true ∷ true ∷ true ∷ false ∷ false ∷ [])
    ∷ (82, true ∷ false ∷ true ∷ false ∷ true ∷ true ∷ true ∷ true ∷ false ∷ true ∷ [])
    ∷ (
      47,
      true ∷ false ∷ true ∷ false ∷ true ∷ true ∷ true ∷ true ∷ true ∷ false ∷ false ∷ false ∷ [],
    )
    ∷ (
      33,
      true ∷ false ∷ true ∷ false ∷ true ∷ true ∷ true ∷ true ∷ true ∷ false ∷ false ∷ true ∷ false
          ∷ false ∷ [],
    )
    ∷ (
      88,
      true ∷ false ∷ true ∷ false ∷ true ∷ true ∷ true ∷ true ∷ true ∷ false ∷ false ∷ true ∷ false
          ∷ true ∷ [],
    )
    ∷ (
      37,
      true ∷ false ∷ true ∷ false ∷ true ∷ true ∷ true ∷ true ∷ true ∷ false ∷ false ∷ true ∷ true
          ∷ [],
    )
    ∷ (
      89,
      true ∷ false ∷ true ∷ false ∷ true ∷ true ∷ true ∷ true ∷ true ∷ false ∷ true ∷ false ∷ [],
    )
    ∷ (
      86,
      true ∷ false ∷ true ∷ false ∷ true ∷ true ∷ true ∷ true ∷ true ∷ false ∷ true ∷ true ∷ [],
    )
    ∷ (66, true ∷ false ∷ true ∷ false ∷ true ∷ true ∷ true ∷ true ∷ true ∷ true ∷ [])
    ∷ (116, true ∷ false ∷ true ∷ true ∷ [])
    ∷ (104, true ∷ true ∷ false ∷ false ∷ false ∷ [])
    ∷ (109, true ∷ true ∷ false ∷ false ∷ true ∷ false ∷ [])
    ∷ (98, true ∷ true ∷ false ∷ false ∷ true ∷ true ∷ false ∷ [])
    ∷ (65, true ∷ true ∷ false ∷ false ∷ true ∷ true ∷ true ∷ false ∷ false ∷ [])
    ∷ (50, true ∷ true ∷ false ∷ false ∷ true ∷ true ∷ true ∷ false ∷ true ∷ false ∷ [])
    ∷ (34, true ∷ true ∷ false ∷ false ∷ true ∷ true ∷ true ∷ false ∷ true ∷ true ∷ [])
    ∷ (107, true ∷ true ∷ false ∷ false ∷ true ∷ true ∷ true ∷ true ∷ [])
    ∷ (114, true ∷ true ∷ false ∷ true ∷ false ∷ [])
    ∷ (117, true ∷ true ∷ false ∷ true ∷ true ∷ false ∷ [])
    ∷ (99, true ∷ true ∷ false ∷ true ∷ true ∷ true ∷ [])
    ∷ (101, true ∷ true ∷ true ∷ false ∷ [])
    ∷ (10, true ∷ true ∷ true ∷ true ∷ false ∷ false ∷ [])
    ∷ (40, true ∷ true ∷ true ∷ true ∷ false ∷ true ∷ false ∷ false ∷ false ∷ false ∷ [])
    ∷ (52, true ∷ true ∷ true ∷ true ∷ false ∷ true ∷ false ∷ false ∷ false ∷ true ∷ false ∷ [])
    ∷ (
      59,
      true ∷ true ∷ true ∷ true ∷ false ∷ true ∷ false ∷ false ∷ false ∷ true ∷ true ∷ false ∷ [],
    )
    ∷ (
      81,
      true ∷ true ∷ true ∷ true ∷ false ∷ true ∷ false ∷ false ∷ false ∷ true ∷ true ∷ true ∷ false
          ∷ false ∷ [],
    )
    ∷ (
      61,
      true ∷ true ∷ true ∷ true ∷ false ∷ true ∷ false ∷ false ∷ false ∷ true ∷ true ∷ true ∷ false
          ∷ true ∷ [],
    )
    ∷ (
      36,
      true ∷ true ∷ true ∷ true ∷ false ∷ true ∷ false ∷ false ∷ false ∷ true ∷ true ∷ true ∷ true
          ∷ false ∷ [],
    )
    ∷ (
      62,
      true ∷ true ∷ true ∷ true ∷ false ∷ true ∷ false ∷ false ∷ false ∷ true ∷ true ∷ true ∷ true
          ∷ true ∷ false ∷ false ∷ [],
    )
    ∷ (
      60,
      true ∷ true ∷ true ∷ true ∷ false ∷ true ∷ false ∷ false ∷ false ∷ true ∷ true ∷ true ∷ true
          ∷ true ∷ false ∷ true ∷ [],
    )
    ∷ (
      90,
      true ∷ true ∷ true ∷ true ∷ false ∷ true ∷ false ∷ false ∷ false ∷ true ∷ true ∷ true ∷ true
          ∷ true ∷ true ∷ [],
    )
    ∷ (77, true ∷ true ∷ true ∷ true ∷ false ∷ true ∷ false ∷ false ∷ true ∷ false ∷ [])
    ∷ (80, true ∷ true ∷ true ∷ true ∷ false ∷ true ∷ false ∷ false ∷ true ∷ true ∷ [])
    ∷ (84, true ∷ true ∷ true ∷ true ∷ false ∷ true ∷ false ∷ true ∷ false ∷ [])
    ∷ (41, true ∷ true ∷ true ∷ true ∷ false ∷ true ∷ false ∷ true ∷ true ∷ false ∷ [])
    ∷ (79, true ∷ true ∷ true ∷ true ∷ false ∷ true ∷ false ∷ true ∷ true ∷ true ∷ false ∷ [])
    ∷ (
      75,
      true ∷ true ∷ true ∷ true ∷ false ∷ true ∷ false ∷ true ∷ true ∷ true ∷ true ∷ false ∷ [],
    )
    ∷ (85, true ∷ true ∷ true ∷ true ∷ false ∷ true ∷ false ∷ true ∷ true ∷ true ∷ true ∷ true ∷ [])
    ∷ (119, true ∷ true ∷ true ∷ true ∷ false ∷ true ∷ true ∷ [])
    ∷ (115, true ∷ true ∷ true ∷ true ∷ true ∷ [])
    ∷ []

-- The tree of the code words. The file holds no frequencies.
abbrev pub shipped_tree : Node
shipped_tree =
    internal 0
      (internal 0
        (internal 0
          (internal 0 (leaf 110 0) (
            internal 0 (leaf 100 0) (
              internal 0
                (internal 0
                  (internal 0 (leaf 39 0) (
                    internal 0 (internal 0 (leaf 53 0) (leaf 57 0))
                      (internal 0 (leaf 122 0) (leaf 51 0))))
                  (internal 0 (leaf 45 0)
                    (internal 0 (leaf 48 0) (internal 0 (leaf 76 0) (leaf 69 0)))))
                (internal 0
                  (internal 0
                    (internal 0 (internal 0 (leaf 71 0) (leaf 87 0)) (
                      internal 0 (leaf 113 0) (
                        internal 0
                          (internal 0 (leaf 63 0) (
                            internal 0 (leaf 3 0) (
                              internal 0 (leaf 43 0) (
                                internal 0 (leaf 38 0)
                                  (internal 0 (internal 0 (leaf 35 0) (leaf 64 0)) (leaf 42 0))))))
                          (leaf 74 0))))
                    (internal 0 (leaf 120 0) (internal 0 (leaf 72 0) (leaf 106 0))))
                  (leaf 46 0)))))
          (internal 0 (leaf 105 0) (leaf 111 0)))
        (leaf 32 0))
      (internal 0
        (internal 0
          (internal 0
            (internal 0 (internal 0 (leaf 121 0) (leaf 103 0))
              (internal 0 (leaf 112 0) (leaf 102 0)))
            (leaf 97 0))
          (internal 0
            (internal 0 (leaf 108 0) (
              internal 0 (internal 0 (leaf 44 0) (leaf 118 0)) (
                internal 0
                  (internal 0
                    (internal 0
                      (internal 0 (internal 0 (leaf 58 0) (leaf 55 0))
                        (internal 0 (leaf 56 0) (leaf 54 0)))
                      (leaf 73 0))
                    (internal 0 (leaf 49 0) (leaf 67 0)))
                  (internal 0 (internal 0 (leaf 83 0) (internal 0 (leaf 70 0) (leaf 68 0))) (
                    internal 0 (internal 0 (leaf 78 0) (leaf 82 0)) (
                      internal 0
                        (internal 0
                          (internal 0 (leaf 47 0)
                            (internal 0 (internal 0 (leaf 33 0) (leaf 88 0)) (leaf 37 0)))
                          (internal 0 (leaf 89 0) (leaf 86 0)))
                        (leaf 66 0)))))))
            (leaf 116 0)))
        (internal 0
          (internal 0
            (internal 0 (leaf 104 0) (
              internal 0 (leaf 109 0) (
                internal 0 (leaf 98 0) (
                  internal 0 (internal 0 (leaf 65 0) (internal 0 (leaf 50 0) (leaf 34 0)))
                    (leaf 107 0)))))
            (internal 0 (leaf 114 0) (internal 0 (leaf 117 0) (leaf 99 0))))
          (internal 0 (leaf 101 0) (
            internal 0
              (internal 0 (leaf 10 0) (
                internal 0
                  (internal 0
                    (internal 0
                      (internal 0 (leaf 40 0) (
                        internal 0 (leaf 52 0) (
                          internal 0 (leaf 59 0) (
                            internal 0 (internal 0 (leaf 81 0) (leaf 61 0)) (
                              internal 0 (leaf 36 0)
                                (internal 0 (internal 0 (leaf 62 0) (leaf 60 0)) (leaf 90 0)))))))
                      (internal 0 (leaf 77 0) (leaf 80 0)))
                    (internal 0 (leaf 84 0) (
                      internal 0 (leaf 41 0)
                        (internal 0 (leaf 79 0) (internal 0 (leaf 75 0) (leaf 85 0))))))
                  (leaf 119 0)))
              (leaf 115 0)))))
