-- ===== src/HttpClientParser/Cases.antt =====
-- The table of src/http11/httpclient_parser.c.
mod From1
mod From27
mod From44
mod From59
mod From80
use mongrel.Prelude.{ℕ, List, [], ◌∷◌}
use mongrel.Ragel.{Switch}
use mongrel.HttpClientParser.{Action}
use mongrel.HttpClientParser.Cases.From1.{
  case_1, case_2, case_3, case_4, case_5, case_6, case_7, case_8, case_9, case_10, case_11, case_12,
  case_13, case_14, case_15, case_16, case_17, case_18, case_19, case_20, case_21, case_22, case_23,
  case_24, case_25, case_26,
}
use mongrel.HttpClientParser.Cases.From27.{
  case_27, case_28, case_29, case_30, case_31, case_32, case_33, case_34, case_35, case_36, case_37,
  case_38, case_39, case_40, case_41, case_42, case_43,
}
use mongrel.HttpClientParser.Cases.From44.{
  case_44, case_45, case_46, case_47, case_48, case_49, case_50, case_51, case_52, case_53, case_54,
  case_55, case_56, case_57, case_58,
}
use mongrel.HttpClientParser.Cases.From59.{
  case_59, case_60, case_61, case_62, case_63, case_64, case_65, case_66, case_67, case_68, case_69,
  case_70, case_71, case_72, case_73, case_74, case_75, case_76, case_77, case_78, case_79,
}
use mongrel.HttpClientParser.Cases.From80.{
  case_80, case_81, case_82, case_83, case_84, case_85, case_86, case_87, case_88, case_89, case_90,
  case_91, case_92, case_93,
}

-- `switch ( cs )`
unfoldable pub table : List (ℕ × Switch Action)
table =
    (1, case_1)
    ∷ (2, case_2)
    ∷ (3, case_3)
    ∷ (4, case_4)
    ∷ (5, case_5)
    ∷ (6, case_6)
    ∷ (7, case_7)
    ∷ (8, case_8)
    ∷ (9, case_9)
    ∷ (10, case_10)
    ∷ (11, case_11)
    ∷ (12, case_12)
    ∷ (13, case_13)
    ∷ (14, case_14)
    ∷ (15, case_15)
    ∷ (16, case_16)
    ∷ (17, case_17)
    ∷ (18, case_18)
    ∷ (19, case_19)
    ∷ (20, case_20)
    ∷ (21, case_21)
    ∷ (22, case_22)
    ∷ (23, case_23)
    ∷ (24, case_24)
    ∷ (25, case_25)
    ∷ (26, case_26)
    ∷ (27, case_27)
    ∷ (28, case_28)
    ∷ (29, case_29)
    ∷ (30, case_30)
    ∷ (31, case_31)
    ∷ (32, case_32)
    ∷ (33, case_33)
    ∷ (34, case_34)
    ∷ (35, case_35)
    ∷ (36, case_36)
    ∷ (37, case_37)
    ∷ (38, case_38)
    ∷ (39, case_39)
    ∷ (40, case_40)
    ∷ (41, case_41)
    ∷ (42, case_42)
    ∷ (43, case_43)
    ∷ (44, case_44)
    ∷ (45, case_45)
    ∷ (46, case_46)
    ∷ (47, case_47)
    ∷ (48, case_48)
    ∷ (49, case_49)
    ∷ (50, case_50)
    ∷ (51, case_51)
    ∷ (52, case_52)
    ∷ (53, case_53)
    ∷ (54, case_54)
    ∷ (55, case_55)
    ∷ (56, case_56)
    ∷ (57, case_57)
    ∷ (58, case_58)
    ∷ (59, case_59)
    ∷ (60, case_60)
    ∷ (61, case_61)
    ∷ (62, case_62)
    ∷ (63, case_63)
    ∷ (64, case_64)
    ∷ (65, case_65)
    ∷ (66, case_66)
    ∷ (67, case_67)
    ∷ (68, case_68)
    ∷ (69, case_69)
    ∷ (70, case_70)
    ∷ (71, case_71)
    ∷ (72, case_72)
    ∷ (73, case_73)
    ∷ (74, case_74)
    ∷ (75, case_75)
    ∷ (76, case_76)
    ∷ (77, case_77)
    ∷ (78, case_78)
    ∷ (79, case_79)
    ∷ (80, case_80)
    ∷ (81, case_81)
    ∷ (82, case_82)
    ∷ (83, case_83)
    ∷ (84, case_84)
    ∷ (85, case_85)
    ∷ (86, case_86)
    ∷ (87, case_87)
    ∷ (88, case_88)
    ∷ (89, case_89)
    ∷ (90, case_90)
    ∷ (91, case_91)
    ∷ (92, case_92)
    ∷ (93, case_93)
    ∷ []
