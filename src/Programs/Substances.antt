-- ===== src/Programs/Substances.antt =====
-- The AQL text of examples/exampleOptions.cpp.
use mathlib.Core.List.{flatten}
use arango_cpp.Base.{[], ◌∷◌, Text, lit}

unfoldable pub aql_fun_substances_reactions_ids : Text
aql_fun_substances_reactions_ids = flatten (
    lit "/* Get substances */ \n"
    ∷ lit "LET substances_ = ( \n"
    ∷ lit "/* Get substances that are defined through a reaction */ \n"
    ∷ lit "LET reacdcs_ = ( \n"
    ∷ lit "    FOR s IN substances \n"
    ∷ lit "        FILTER s._id IN @ids \n"
    ∷ lit "        FOR r IN 1..1 INBOUND s defines \n"
    ∷ lit "        RETURN { \n"
    ∷ lit "            name:   s.properties.name, \n"
    ∷ lit "            symbol: s.properties.symbol, \n"
    ∷ lit "            reaction : r.properties.symbol, \n"
    ∷ lit "            formula:    s.properties.formula, \n"
    ∷ lit "            formula_charge: s.properties.formula_charge, \n"
    ∷ lit "            mass_per_mole:  s.properties.mass_per_mole, \n"
    ∷ lit "            aggregate_state:    s.properties.aggregate_state, \n"
    ∷ lit "            class_:    s.properties.class_, \n"
    ∷ lit "            limitsTP:   s.properties.limitsTP, \n"
    ∷ lit "            Tst:    s.properties.Tst, \n"
    ∷ lit "            Pst:    s.properties.Pst, \n"
    ∷ lit "            TPMethods:  s.properties.TPMethods, \n"
    ∷ lit "            sm_heat_capacity_p: s.properties.sm_heat_capacity_p, \n"
    ∷ lit "            sm_gibbs_energy:    s.properties.sm_gibbs_energy, \n"
    ∷ lit "            sm_enthalpy:    s.properties.sm_enthalpy, \n"
    ∷ lit "            sm_entropy_abs: s.properties.sm_entropy_abs, \n"
    ∷ lit "            sm_volume:  s.properties.sm_volume, \n"
    ∷ lit "            m_compressibility: s.properties.m_compressibility, \n"
    ∷ lit "            m_expansivity: s.properties.m_expansivity, \n"
    ∷ lit "            id: s._id \n"
    ∷ lit "        } \n"
    ∷ lit ") \n"
    ∷ lit "/* Get substances from list of records ids */ \n"
    ∷ lit "LET selected_substances_ = ( \n"
    ∷ lit "    FOR s IN substances \n"
    ∷ lit "        FILTER s._id IN @ids \n"
    ∷ lit "        FILTER s.properties.symbol NOT IN reacdcs_[*].symbol \n"
    ∷ lit "        RETURN { \n"
    ∷ lit "            name:   s.properties.name, \n"
    ∷ lit "            symbol: s.properties.symbol, \n"
    ∷ lit "            formula:    s.properties.formula, \n"
    ∷ lit "            formula_charge: s.properties.formula_charge, \n"
    ∷ lit "            mass_per_mole:  s.properties.mass_per_mole, \n"
    ∷ lit "            aggregate_state:    s.properties.aggregate_state, \n"
    ∷ lit "            class_:    s.properties.class_, \n"
    ∷ lit "            limitsTP:   s.properties.limitsTP, \n"
    ∷ lit "            Tst:    s.properties.Tst, \n"
    ∷ lit "            Pst:    s.properties.Pst, \n"
    ∷ lit "            TPMethods:  s.properties.TPMethods, \n"
    ∷ lit "            sm_heat_capacity_p: s.properties.sm_heat_capacity_p, \n"
    ∷ lit "            sm_gibbs_energy:    s.properties.sm_gibbs_energy, \n"
    ∷ lit "            sm_enthalpy:    s.properties.sm_enthalpy, \n"
    ∷ lit "            sm_entropy_abs: s.properties.sm_entropy_abs, \n"
    ∷ lit "            sm_volume:  s.properties.sm_volume, \n"
    ∷ lit "            m_compressibility: s.properties.m_compressibility, \n"
    ∷ lit "            m_expansivity: s.properties.m_expansivity, \n"
    ∷ lit "            id: s._id \n"
    ∷ lit "        }) \n"
    ∷ lit "RETURN APPEND(reacdcs_, selected_substances_, true)  \n"
    ∷ lit ") \n"
    ∷ lit "/* Get reactions */ \n"
    ∷ lit "LET reactions_ = ( \n"
    ∷ lit "LET reactions_defines_ = ( \n"
    ∷ lit "    FOR s IN substances \n"
    ∷ lit "        FILTER s._id IN @ids  \n"
    ∷ lit "        FOR r IN 1..1 INBOUND s defines \n"
    ∷ lit "        LET reactants_ = ( \n"
    ∷ lit "            FOR ss, t IN 1..1 INBOUND r takes \n"
    ∷ lit "/*            LET ids_2 = PUSH(ids_, ss._id, true) /* add substance id to idlist */ \n"
    ∷ lit "            RETURN { \n"
    ∷ lit "                symbol: ss.properties.symbol, \n"
    ∷ lit "                coefficient: t.properties.stoi_coeff, \n"
    ∷ lit "                id: ss._id \n"
    ∷ lit "            } \n"
    ∷ lit "        ) \n"
    ∷ lit "        RETURN { \n"
    ∷ lit "            name:   r.properties.name, \n"
    ∷ lit "            symbol: r.properties.symbol, \n"
    ∷ lit "            substance : s.properties.symbol, \n"
    ∷ lit "            equation:    r.properties.equation, \n"
    ∷ lit "            reactants: reactants_, \n"
    ∷ lit "            limitsTP:   r.properties.limitsTP, \n"
    ∷ lit "            Tst:    r.properties.Tst, \n"
    ∷ lit "            Pst:    r.properties.Pst, \n"
    ∷ lit "            TPMethods:  r.properties.TPMethods, \n"
    ∷ lit "            logKr : r.properties.logKr, \n"
    ∷ lit "            drsm_heat_capacity_p : r.properties.drsm_heat_capacity_p, \n"
    ∷ lit "            drsm_gibbs_energy : r.properties.drsm_gibbs_energy, \n"
    ∷ lit "            drsm_enthalpy : r.properties.drsm_enthalpy, \n"
    ∷ lit "            drsm_entropy : r.properties.drsm_entropy, \n"
    ∷ lit "            drsm_volume : r.properties.drsm_volume, \n"
    ∷ lit "            id: r._id \n"
    ∷ lit "        } \n"
    ∷ lit ") \n"
    ∷ lit "LET selected_reactions_ = ( \n"
    ∷ lit "    FOR r IN reactions \n"
    ∷ lit "        FILTER r._id IN @ids \n"
    ∷ lit "        FILTER r.properties.symbol NOT IN reactions_defines_[*].symbol \n"
    ∷ lit "        LET reactants_ = ( \n"
    ∷ lit "            FOR ss, t IN 1..1 INBOUND r takes \n"
    ∷ lit "            RETURN { \n"
    ∷ lit "                symbol: ss.properties.symbol, \n"
    ∷ lit "                coefficient: t.properties.stoi_coeff, \n"
    ∷ lit "                id: ss._id \n"
    ∷ lit "            } \n"
    ∷ lit "        ) \n"
    ∷ lit "        RETURN { \n"
    ∷ lit "            name:   r.properties.name, \n"
    ∷ lit "            symbol: r.properties.symbol, \n"
    ∷ lit "            equation:    r.properties.equation, \n"
    ∷ lit "            reactants: reactants_, \n"
    ∷ lit "            limitsTP:   r.properties.limitsTP, \n"
    ∷ lit "            Tst:    r.properties.Tst, \n"
    ∷ lit "            Pst:    r.properties.Pst, \n"
    ∷ lit "            TPMethods:  r.properties.TPMethods, \n"
    ∷ lit "            logKr : r.properties.logKr, \n"
    ∷ lit "            drsm_heat_capacity_p : r.properties.drsm_heat_capacity_p, \n"
    ∷ lit "            drsm_gibbs_energy : r.properties.drsm_gibbs_energy, \n"
    ∷ lit "            drsm_enthalpy : r.properties.drsm_enthalpy, \n"
    ∷ lit "            drsm_entropy : r.properties.drsm_entropy, \n"
    ∷ lit "            drsm_volume : r.properties.drsm_volume, \n"
    ∷ lit "            id: r._id \n"
    ∷ lit "        }) \n"
    ∷ lit "RETURN APPEND(reactions_defines_, selected_reactions_, true)  \n"
    ∷ lit ") \n"
    ∷ lit "/* get ids of all traversed data */ \n"
    ∷ lit "LET ids_substances_ = (substances_[*][*].id) \n"
    ∷ lit "LET ids_reactions_ = (reactions_[*][*].id) \n"
    ∷ lit "LET ids_reactants_ = ( \n"
    ∷ lit "    FOR r IN reactions_ \n"
    ∷ lit "            RETURN r[*].reactants[*].id \n"
    ∷ lit ") \n"
    ∷ lit "LET ids_ =  (APPEND(FLATTEN(ids_substances_,1), FLATTEN(ids_reactions_,1), true)) \n"
    ∷ lit
        "LET ids_all =  SORTED_UNIQUE((FLATTEN(APPEND(ids_, FLATTEN(ids_reactants_,1), true),1))) \n"
    ∷ lit
        "RETURN {\"substances\": SORTED_UNIQUE(FLATTEN(substances_,1)) , \"reactions\": SORTED_UNIQUE(FLATTEN(reactions_,1)), \"ids\": ids_all} \n"
    ∷ [])
